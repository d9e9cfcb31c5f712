-- ===== src/Limits/Redelivery.antt =====
-- A key that comes again soon is not counted again.
use resenhazord.Prelude.{
  ℕ, zero, suc, ◌+◌, ◌-◌, ◌≤◌, ◌<◌, String, ◌≡◌, refl, ap, ◌∙◌, subst, inl, inr, true, false,
  Option, none, some, List, [], ◌∷◌, ◌++◌, arith, Bool-cases, string_eq, length, get_elem?,
  length-append, drop, length-drop, nat_eq, pair_eq,
}
use resenhazord.Command.Run.{contains}
use resenhazord.Limits.{Counted, recent_limit, last_of, count_key, increment, increments}

-- The key stands among the last `n` that are remembered.
abbrev pub IsRecent : ℕ → String → List String → Type 0
IsRecent n key keys = (i : ℕ) × (get_elem? keys i ≡ some key) × (length keys ≤ i + n)

get_elem?-drop :
    (n i j : ℕ) (keys : List String) → j ≡ n + i → get_elem? (drop n keys) i ≡ get_elem? keys j
get_elem?-drop zero i j keys e = ap (get_elem? keys) (omega (arith, e))
get_elem?-drop (suc n) i j [] e = refl
get_elem?-drop (suc n) i zero (k ∷ keys) e = absurd (omega (arith, e))
get_elem?-drop (suc n) i (suc j) (k ∷ keys) e = get_elem?-drop n i j keys (omega (arith, e))

get_elem?-append :
    (keys : List String) (i : ℕ) (key other : String)
    → get_elem? keys i ≡ some key
    → get_elem? (keys ++ other ∷ []) i ≡ some key
get_elem?-append [] i key other h = cc
get_elem?-append (k ∷ keys) zero key other h = h
get_elem?-append (k ∷ keys) (suc i) key other h = get_elem?-append keys i key other h

contains-get_elem? :
    (keys : List String) (i : ℕ) (key : String)
    → get_elem? keys i ≡ some key
    → contains key keys ≡ true
unfolding contains
contains-get_elem? [] i key h = cc
contains-get_elem? (k ∷ keys) zero key h =
    let e : k ≡ key = cc h in ground (arith, (string_eq.beq_iff k key).1 e)
contains-get_elem? (k ∷ keys) (suc i) key h = ground (arith, contains-get_elem? keys i key h)

-- A key that is remembered well enough stays so when another one is.
last_of-IsRecent :
    (n : ℕ) (key other : String) (keys : List String)
    → n < recent_limit
    → IsRecent n key keys
    → IsRecent (suc n) key (last_of recent_limit (keys ++ other ∷ []))
last_of-IsRecent n key other keys small (i, there, late) =
    let gone : ℕ = length (keys ++ other ∷ []) - recent_limit in
    let size = length-append keys (other ∷ []) in
    (
      i - gone,
      get_elem?-drop gone (i - gone) i (keys ++ other ∷ []) (omega (arith, size, late, small))
          ∙ get_elem?-append keys i key other there,
      omega (arith, size, late, small, length-drop gone (keys ++ other ∷ [])),
    )

increment-IsRecent :
    (n : ℕ) (key : String) (c : Counted) (other : Option String)
    → n < recent_limit
    → IsRecent n key c.recent_keys
    → IsRecent (suc n) key (increment (some c) other).recent_keys
unfolding increment count_key
increment-IsRecent n key c none small (i, there, late) = (i, there, omega (arith, late))
increment-IsRecent n key c (some other) small h = elim (Bool-cases (contains other c.recent_keys)) [
  | inl old ↦
      let (i, there, late) = h in rw (old, increment, count_key) (i, there, omega (arith, late))
  | inr new ↦ rw (new, increment, count_key) (last_of-IsRecent n key other c.recent_keys small h)
]

increments-IsRecent :
    (n : ℕ) (key : String) (keys : List (Option String)) (c : Counted)
    → n + length keys ≤ recent_limit
    → IsRecent n key c.recent_keys
    → IsRecent (n + length keys) key (increments c keys).recent_keys
unfolding increments
increments-IsRecent n key [] c small h = subst (λ m. IsRecent m key c.recent_keys) (omega arith) h
increments-IsRecent n key (other ∷ keys) c small h =
    subst (λ m. IsRecent m key (increments (increment (some c) other) keys).recent_keys)
      {x = suc n + length keys} (omega arith)
      (increments-IsRecent (suc n) key keys (increment (some c) other) (omega (arith, small))
        (increment-IsRecent n key c other (omega (arith, small)) h))

-- The key is not among those remembered.
abbrev pub IsUnseen : String → Option Counted → Type 0
IsUnseen key none = Unit
IsUnseen key (some c) = contains key c.recent_keys ≡ false

-- The count before the first call is 0.
abbrev pub count_of : Option Counted → ℕ
count_of none = 0
count_of (some c) = c.count

get_elem?-last :
    (keys : List String) (key : String) → get_elem? (keys ++ key ∷ []) (length keys) ≡ some key
get_elem?-last [] key = refl
get_elem?-last (k ∷ keys) key = get_elem?-last keys key

last_of-IsRecent_self :
    (key : String) (keys : List String) → IsRecent 1 key (last_of recent_limit (keys ++ key ∷ []))
last_of-IsRecent_self key keys =
    let gone : ℕ = length (keys ++ key ∷ []) - recent_limit in
    let size = length-append keys (key ∷ []) in
    (
      length keys - gone,
      get_elem?-drop gone (length keys - gone) (length keys) (keys ++ key ∷ [])
            (omega (arith, size))
          ∙ get_elem?-last keys key,
      omega (arith, size, length-drop gone (keys ++ key ∷ [])),
    )

increment-unseen :
    (doc : Option Counted) (key : String)
    → IsUnseen key doc
    → ((increment doc (some key)).count ≡ count_of doc + 1)
      × IsRecent 1 key (increment doc (some key)).recent_keys
unfolding increment count_key
increment-unseen none key h = (omega arith, last_of-IsRecent_self key [])
increment-unseen (some c) key h =
    rw (h, increment, count_key) (refl, last_of-IsRecent_self key c.recent_keys)

increment-recent :
    (n : ℕ) (c : Counted) (key : String)
    → IsRecent n key c.recent_keys
    → increment (some c) (some key) ≡ c
unfolding increment count_key
increment-recent n c key (i, there, late) =
    rw (contains-get_elem? c.recent_keys i key there, increment, count_key)
      (ap (λ m. record c { count = m }) {x = c.count + 0} (omega arith))

-- A key that is not remembered is counted, and however many of up to 49 other calls come in between,
-- a call with the same key after them changes nothing: it answers the count as it is.
pub increment-redelivered :
    (doc : Option Counted) (key : String) (others : List (Option String))
    → IsUnseen key doc
    → length others < recent_limit
    → let first = increment doc (some key) in
      (first.count ≡ count_of doc + 1)
      × (increment (some (increments first others)) (some key) ≡ increments first others)
increment-redelivered doc key others new few =
    let (counted, recent) = increment-unseen doc key new in
    let first = increment doc (some key) in
    (
      counted,
      increment-recent (1 + length others) (increments first others) key
          (increments-IsRecent 1 key others first (omega (arith, few)) recent),
    )
