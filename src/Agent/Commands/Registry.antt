-- ===== src/Agent/Commands/Registry.antt =====
-- The registry of the terminal of src/agent.rs: what a name runs after a command was added.
use nerves_hub_link_esp.Base.{
  String, ◌≡◌, ◌≢◌, refl, ap, ◌∙◌, none, some, List, [], ◌∷◌, ◌++◌, str_eq, eq_iff, if◌then◌else◌,
  or_else, arith,
}
use nerves_hub_link_esp.Console.{finish}
use nerves_hub_link_esp.Agent.Commands.{
  Command, named, others, register, run_named, run_command, help_output,
}

module _ {W : Type 0} where
  named-append :
      (name : String) (cs ds : List (Command W))
      → named name (cs ++ ds) ≡ or_else (named name cs) (named name ds)
  unfolding named
  named-append name [] ds = refl
  named-append name (c ∷ cs) ds = ground (arith, named-append name cs ds)

  named-others :
      (gone name : String) (cs : List (Command W))
      → named name (others gone cs) ≡ (if str_eq gone name then none else named name cs)
  unfolding named others
  named-others gone name [] = ground arith
  named-others gone name (c ∷ cs) =
      ground
        (arith, named-others gone name cs, eq_iff c.name gone, eq_iff c.name name, eq_iff gone name)

  named-register :
      (c : Command W) (name : String) (cs : List (Command W))
      → named name (register c cs) ≡ (if str_eq c.name name then some c else named name cs)
  unfolding register named
  named-register c name cs =
      named-append name (others c.name cs) (c ∷ [])
      ∙ ap (λ o. or_else o (if str_eq c.name name then some c else none))
          (named-others c.name name cs)
      ∙ ground (arith)

  -- In the registry, a command that was added to any others is found by its name, also where another had
  -- that name; every other name but `help` is looked up as before.
  pub run_command-register :
      (c : Command W) (cs : List (Command W)) (name : String) (args : List String) (w : W)
      → name ≢ "help"
      → run_command name args (register c cs) w ≡ (
          if str_eq c.name name then run_named name args (some c) w else run_command name args cs w)
  unfolding run_command
  run_command-register c cs name args w other =
      ap
        (λ o.
          if str_eq name "help"
          then (finish (help_output (register c cs)), w)
          else run_named name args o w)
        (named-register c name cs)
      ∙ ground (arith, eq_iff name "help", other)
