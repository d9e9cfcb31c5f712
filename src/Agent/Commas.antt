-- ===== src/Agent/Commas.antt =====
-- The texts that the translator makes of a tool call start with a comma.
use Prim.Native.Char.{Char, code}
use Prim.Native.String.append
use resenhazord.Prelude.{
  ℕ, String, ◌≡◌, refl, ap, subst, inl, inr, Bool, true, false, ◌||◌, Option, none, some, List, [],
  ◌∷◌, arith, if◌then◌else◌, Bool-cases, Option-cases, ◌==◌, beq_ne, get_elem?, string_eq, nat_eq,
  pair_eq,
}
use resenhazord.Prelude.Dict
use resenhazord.Prelude.Dict.{Dict}
use resenhazord.Text.{Unicode, is_space, concat}
use resenhazord.Text.Split.{add_word, split_word, split, join}
use resenhazord.Registry.{Registry, index_by_name}
use resenhazord.Agent.Graph.{lstrip_commas}
use resenhazord.Agent.Translator.{
  Value, lstrip_of, rstrip_of, strip_of, is_quote, starts_with_comma, without_dash, drop_long_flags,
  drop_leading_dash, normalize_flags, compose, or_no_items, compose_text, args_parts, is_dash,
  registered_name, tail_text, resolve_command_name,
}

concat-cons : (c : Char) (s t : String) → concat (String.◌∷◌ c s) t ≡ String.◌∷◌ c (concat s t)
concat-cons c s t = λ i. append.cons c s t i

pub concat-comma :
    (s t : String) → starts_with_comma s ≡ true → starts_with_comma (concat s t) ≡ true
concat-comma String.[] t h = cc
concat-comma (String.◌∷◌ c s) t h = rw (concat-cons c s t) h

-- No quote stands in front of a comma.
strip_of-comma :
    (s : String) → starts_with_comma s ≡ true → starts_with_comma (strip_of is_quote s) ≡ true
unfolding strip_of lstrip_of rstrip_of
strip_of-comma String.[] h = cc
strip_of-comma (String.◌∷◌ c s) h =
    let other : (code c == 39 || code c == 34) ≡ false = ground (arith, h) in
    rw (other, lstrip_of) (rw (other, rstrip_of) h)

join-comma :
    (word : String) (words : List String)
    → starts_with_comma word ≡ true
    → starts_with_comma (join " " (word ∷ words)) ≡ true
unfolding join
join-comma word [] h = h
join-comma word (x ∷ words) h = concat-comma word _ h

add_word-comma :
    (word : String) (words : List String)
    → starts_with_comma word ≡ true
    → add_word word words ≡ word ∷ words
add_word-comma word words h =
    let full : (word == "") ≡ false = beq_ne word "" (λ e. cc (ap starts_with_comma e, h)) in
    rw (full, add_word) refl

-- A text that starts with a comma splits into words, the first of which does.
split-comma :
    (text : String)
    → starts_with_comma text ≡ true
    → (word : String) × (words : List String) × (split text ≡ word ∷ words)
      × (starts_with_comma word ≡ true)
unfolding split split_word
split-comma String.[] h = cc
split-comma (String.◌∷◌ c s) h =
    let solid : is_space c ≡ false = ground (arith, h) in
    let word : String = String.◌∷◌ c (split_word s).0 in
    (
      word,
      (split_word s).1,
      rw (solid, split, split_word) (add_word-comma word (split_word s).1 h),
      h,
    )

module _ {W : Type 0} (u : Unicode) (r : Registry W) where
  registered_name-comma :
      (word : String) (place : Option ℕ)
      → starts_with_comma word ≡ true
      → starts_with_comma (registered_name u r word place) ≡ true
  registered_name-comma word none h = h
  registered_name-comma word (some i) h = elim (Option-cases (get_elem? r.commands i)) [
    | inl missing ↦ rw (missing, registered_name) h
    | inr (c, found) ↦ rw (found, registered_name) (concat-comma "," c.config.name refl)
  ]

  pub resolve_command_name-comma :
      (text : String)
      → starts_with_comma text ≡ true
      → starts_with_comma (resolve_command_name u r text) ≡ true
  unfolding resolve_command_name
  resolve_command_name-comma text h =
      let (word, words, cut, first) = split-comma text h in
      rw (h, resolve_command_name)
        (rw (cut, resolve_command_name)
          (join-comma (registered_name u r word (index_by_name u r (tail_text word))) words
            (registered_name-comma word (index_by_name u r (tail_text word)) first)))

-- The text, where there is one, starts with a comma.
abbrev pub starts_or_none : Option String → Bool
starts_or_none none = true
starts_or_none (some text) = starts_with_comma text

pub compose_text-comma :
    (name : String) (d : Dict String Value) (text : String)
    → compose_text name d ≡ some text
    → starts_with_comma text ≡ true
unfolding compose_text
compose_text-comma name d text h = elim (Option-cases (args_parts (Dict.get d "args"))) [
  | inl broken ↦ cc (rw (broken, compose_text) at h)
  | inr (args, found) ↦
      let made = rw (found, compose_text) at h in
      subst (λ o. starts_or_none o ≡ true) made
        (strip_of-comma (join " " _) (
          join-comma (concat "," (lstrip_of is_dash name)) _
            (concat-comma "," (lstrip_of is_dash name) refl)))
]

without_dash-comma :
    (text rest : String)
    → starts_with_comma text ≡ true
    → starts_with_comma (without_dash text rest) ≡ true
without_dash-comma text String.[] h = h
without_dash-comma text (String.◌∷◌ c s) h = elim (Bool-cases (is_dash c)) [
  | inl dash ↦ rw (dash, without_dash) (concat-comma "," s refl)
  | inr other ↦ rw (other, without_dash) h
]

drop_long_flags-comma :
    (u : Unicode) (text : String)
    → starts_with_comma text ≡ true
    → starts_with_comma (drop_long_flags u false text) ≡ true
unfolding drop_long_flags
drop_long_flags-comma u String.[] h = cc
drop_long_flags-comma u (String.◌∷◌ c String.[]) h = h
drop_long_flags-comma u (String.◌∷◌ c (String.◌∷◌ d s)) h = h

pub normalize_flags-comma :
    (u : Unicode) (text : String)
    → starts_with_comma text ≡ true
    → starts_with_comma (normalize_flags u text) ≡ true
unfolding normalize_flags drop_leading_dash
normalize_flags-comma u text h =
    let short : String = drop_long_flags u false text in
    let first : starts_with_comma short ≡ true = drop_long_flags-comma u text h in
    rw (first, normalize_flags, drop_leading_dash)
      (without_dash-comma short (lstrip_commas short) first)

pub compose-comma :
    {W : Type 0} (u : Unicode) (r : Registry W) (loads : String → Option (Dict String Value))
    (name arguments text : String)
    → compose u r loads name arguments ≡ some text
    → starts_with_comma text ≡ true
unfolding compose
compose-comma u r loads name arguments text h =
    let d : Dict String Value = if arguments == "" then [] else or_no_items (loads arguments) in
    elim (Option-cases (compose_text name d)) [
      | inl broken ↦ cc (rw (broken, compose) at h)
      | inr (raw, found) ↦
          subst (λ o. starts_or_none o ≡ true) (rw (found, compose) at h)
            (resolve_command_name-comma u r raw (compose_text-comma name d raw found))
    ]
