-- ===== src/Registry.antt =====
-- bot/application/command_registry.py. A command is known by its place in the list of registered
-- commands, which stands for its identity as an object.
pub mod Lookup
pub mod Strategy
use Prim.Native.Char.{code}
use Prim.Native.String
use resenhazord.Prelude.{
  ℕ, suc, String, Bool, false, ◌||◌, Option, none, some, List, [], ◌∷◌, ◌++◌, if◌then◌else◌, ◌==◌,
  length, get_elem?, string_eq, nat_eq, pair_eq,
}
use resenhazord.Prelude.Dict
use resenhazord.Prelude.Dict.{Dict}
use resenhazord.Text.{Unicode}
use resenhazord.Text.Regex.{
  Regex, one, seq, star, plus, group, literal, space, prefixmatch, first_group,
}
use resenhazord.Command.Run.{Command}

-- `^\s*,\s*([\w-]+)`
abbrev pub leading_token : Unicode → Regex
leading_token u =
    seq (star space) (
      seq (literal ",")
        (seq (star space) (group (plus (one (λ c. u.is_word c || code c == b'-'))))))

-- `cmd is candidate`
abbrev pub is_candidate : Option ℕ → ℕ → Bool
is_candidate none i = false
is_candidate (some j) i = j == i

pub record Registry (W : Type 0) : Type 0 where
  pub commands : List (Command W)
  -- by lower-case name or alias
  pub by_name : Dict String ℕ

unfoldable pub put_aliases : Unicode → List String → ℕ → Dict String ℕ → Dict String ℕ
put_aliases u [] i names = names
put_aliases u (alias ∷ aliases) i names = put_aliases u aliases i (Dict.put names (u.lower alias) i)

module _ {W : Type 0} where
  abbrev pub no_commands : Registry W
  no_commands = record { commands = []; by_name = [] }

  unfoldable pub register : Unicode → Registry W → Command W → Registry W
  unfolding put_aliases
  register u r command =
      let i = length r.commands in
      record {
        commands = r.commands ++ command ∷ [];
        by_name =
            put_aliases u command.config.aliases i
              (Dict.put r.by_name (u.lower command.config.name) i);
      }

  -- self._by_name.get(name.lower()), with the command at that place
  unfoldable pub index_by_name : Unicode → Registry W → String → Option ℕ
  index_by_name u r name = Dict.get r.by_name (u.lower name)

  unfoldable pub lookup_by_leading_token : Unicode → Registry W → String → Option ℕ
  lookup_by_leading_token u r text = elim (prefixmatch u (leading_token u) text) [
    | none ↦ none
    | some m ↦ Dict.get r.by_name (u.lower (first_group m))
  ]

  -- The first loop of `get_strategy`, from place `i` on: the candidate is passed over.
  unfoldable pub first_match : Option ℕ → String → ℕ → List (Command W) → Option ℕ
  first_match candidate text i [] = none
  first_match candidate text i (cmd ∷ rest) =
      let later = first_match candidate text (suc i) rest in
      if is_candidate candidate i then later else if cmd.matches text then some i else later

  -- The second loop: the first command whose parser finds its name.
  unfoldable pub first_named : String → ℕ → List (Command W) → Option ℕ
  first_named text i [] = none
  first_named text i (cmd ∷ rest) =
      let later = first_named text (suc i) rest in
      if (cmd.parse text).command_name == "" then later else some i

  abbrev pub candidate_matches : Registry W → Option ℕ → String → Bool
  candidate_matches r none text = false
  candidate_matches r (some i) text = elim (get_elem? r.commands i) [
    | none ↦ false
    | some cmd ↦ cmd.matches text
  ]

  unfoldable pub get_strategy : Unicode → Registry W → String → Option ℕ
  unfolding first_match first_named lookup_by_leading_token
  get_strategy u r text =
      let candidate = lookup_by_leading_token u r text in
      if candidate_matches r candidate text
      then candidate
      else elim (first_match candidate text 0 r.commands) [
        | some i ↦ some i
        | none ↦ first_named text 0 r.commands
      ]
