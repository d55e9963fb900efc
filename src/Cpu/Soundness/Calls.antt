-- ===== src/Cpu/Soundness/Calls.antt =====
-- src/cpu/instr/calls.cpp: the instructions that call and pass arguments keep the machine sound.
use viuavm.Common.{Bool, Option, none, some, Text}
use viuavm.Cpu.RegisterSet.{RegisterSet, Pointer}
use viuavm.Cpu.Machine.{Cause, raise, maybe, Exec, Word, Address}
use viuavm.Cpu.Frames.Calls.{
  prepare_frame, linked_target, call_target, call_native, call_foreign, call,
}
use viuavm.Cpu.Frames.Arguments.{
  frame, with_args, set_argument, check_parameter, param, new_reference, wrap_in_reference,
  as_reference, paref, argument_in, arg, argc,
}
use viuavm.Cpu.Soundness.{Keeps, Keeps-modify}
use viuavm.Cpu.Soundness.Frames.{frame_rules, Keeps-return_value}

pub ruleset call_rules = (frame_rules, Keeps-modify, Keeps-return_value)

pub Keeps-prepare_frame :
    (name : Text) (a : Address) (ref : Bool) (i : Word) → Keeps (prepare_frame name a ref i)
unfolding prepare_frame
Keeps-prepare_frame name a ref i = search call_rules depth 8

pub Keeps-linked_target : (name : Text) → Keeps (linked_target name)
unfolding linked_target
Keeps-linked_target name = search call_rules depth 8

pub Keeps-call_target : (name : Text) → Keeps (call_target name)
unfolding call_target
Keeps-call_target name = search (call_rules, Keeps-linked_target) depth 8

pub Keeps-call_native :
    (a : Address) (name : Text) (ref : Bool) (i : Word) (real : Text)
    → Keeps (call_native a name ref i real)
unfolding call_native
Keeps-call_native a name ref i real =
    search (call_rules, Keeps-call_target, Keeps-prepare_frame) depth 12

module _ (foreign_functions : Text → Option (Exec (Unit {0})))
    (foreign-Keeps : (name : Text)
      → Keeps (
          maybe
            (foreign_functions name)
            (raise Cause.unregistered_function)
            λ callback. callback)) where
  pub Keeps-call_foreign :
      (a : Address) (name : Text) (ref : Bool) (i : Word) (real : Text)
      → Keeps (call_foreign foreign_functions a name ref i real)
  unfolding call_foreign
  Keeps-call_foreign a name ref i real =
      search (call_rules, Keeps-prepare_frame, foreign-Keeps) depth 12

  pub Keeps-call : (a : Address) → Keeps (call foreign_functions a)
  unfolding call
  Keeps-call a = search (call_rules, Keeps-call_native, Keeps-call_foreign) depth 14

pub Keeps-frame : (a : Address) → Keeps (frame a)
unfolding frame
Keeps-frame a = search call_rules depth 12

pub Keeps-with_args : (args : RegisterSet) → Keeps (with_args args)
unfolding with_args
Keeps-with_args args = search call_rules

pub Keeps-set_argument : (i : Word) (o : Option Pointer) → Keeps (set_argument i o)
unfolding set_argument
Keeps-set_argument i o = search (call_rules, Keeps-with_args) depth 10

pub Keeps-check_parameter : (i : Word) → Keeps (check_parameter i)
unfolding check_parameter
Keeps-check_parameter i = search call_rules

pub Keeps-new_reference : (o : Option Pointer) → Keeps (new_reference o)
unfolding new_reference
Keeps-new_reference o = record { from = λ s h. h }

pub Keeps-wrap_in_reference : (i : Word) (o : Option Pointer) → Keeps (wrap_in_reference i o)
unfolding wrap_in_reference
Keeps-wrap_in_reference i o = search (call_rules, Keeps-new_reference) depth 8

pub Keeps-as_reference : (o : Option Pointer) → Keeps (as_reference o)
unfolding as_reference
Keeps-as_reference none = search call_rules
Keeps-as_reference (some p) = search call_rules

pub ruleset argument_rules = (
  call_rules, Keeps-with_args, Keeps-set_argument, Keeps-check_parameter, Keeps-wrap_in_reference,
  Keeps-as_reference,
)

pub Keeps-param : (a : Address) → Keeps (param a)
unfolding param
Keeps-param a = search argument_rules depth 16

pub Keeps-paref : (a : Address) → Keeps (paref a)
unfolding paref
Keeps-paref a = search argument_rules depth 16

pub Keeps-argument_in : (args : RegisterSet) (i : Word) → Keeps (argument_in args i)
unfolding argument_in
Keeps-argument_in args i = search argument_rules depth 8

pub Keeps-arg : (a : Address) → Keeps (arg a)
unfolding arg
Keeps-arg a = search (argument_rules, Keeps-argument_in) depth 16

pub Keeps-argc : (a : Address) → Keeps (argc a)
unfolding argc
Keeps-argc a = search argument_rules depth 10
