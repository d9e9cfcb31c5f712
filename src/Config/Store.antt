-- ===== src/Config/Store.antt =====
-- The contract of bot/ports/config_store_port.py: four operations on a state, and what a reader of
-- the store observes after each write.
use resenhazord.Prelude.{
  String, ◌≡◌, Bool, ◌&&◌, none, some, if◌then◌else◌, ◌==◌, string_eq, nat_eq, pair_eq,
}
use resenhazord.Config.{ChatKey, ChatPolicy, ChatConfig, override_for}

-- The chat that a key names: its type is only written when the chat is created.
abbrev pub is_chat : ChatKey → String → String → Bool
is_chat k p n = k.platform == p && k.native_id == n

pub record ConfigStore (S : Type 0) : Type 0 where
  pub load : S → String → String → ChatConfig
  pub set_override : S → ChatKey → String → Bool → S
  pub clear_override : S → ChatKey → String → S
  pub set_policy : S → ChatKey → ChatPolicy → S

-- What the writes of a store do to what it loads, from the states that satisfy `IsValid`.
pub record StoreLaws {S : Type 0} (c : ConfigStore S) (IsValid : S → Type 0) : Type 0 where
  pub set_override_valid :
      (s : S) (k : ChatKey) (name : String) (on : Bool)
      → IsValid s
      → IsValid (c.set_override s k name on)
  pub clear_override_valid :
      (s : S) (k : ChatKey) (name : String) → IsValid s → IsValid (c.clear_override s k name)
  pub set_policy_valid :
      (s : S) (k : ChatKey) (q : ChatPolicy) → IsValid s → IsValid (c.set_policy s k q)
  pub override-set_override :
      (s : S) (k : ChatKey) (name : String) (on : Bool) (p n d : String)
      → IsValid s
      → override_for (c.load (c.set_override s k name on) p n) d
        ≡ (if is_chat k p n && name == d then some on else override_for (c.load s p n) d)
  pub policy-set_override :
      (s : S) (k : ChatKey) (name : String) (on : Bool) (p n : String)
      → IsValid s
      → (c.load (c.set_override s k name on) p n).policy ≡ (c.load s p n).policy
  pub override-clear_override :
      (s : S) (k : ChatKey) (name : String) (p n d : String)
      → IsValid s
      → override_for (c.load (c.clear_override s k name) p n) d
        ≡ (if is_chat k p n && name == d then none else override_for (c.load s p n) d)
  pub policy-clear_override :
      (s : S) (k : ChatKey) (name : String) (p n : String)
      → IsValid s
      → (c.load (c.clear_override s k name) p n).policy ≡ (c.load s p n).policy
  pub override-set_policy :
      (s : S) (k : ChatKey) (q : ChatPolicy) (p n d : String)
      → IsValid s
      → override_for (c.load (c.set_policy s k q) p n) d ≡ override_for (c.load s p n) d
  pub policy-set_policy :
      (s : S) (k : ChatKey) (q : ChatPolicy) (p n : String)
      → IsValid s
      → (c.load (c.set_policy s k q) p n).policy
        ≡ (if is_chat k p n then q else (c.load s p n).policy)
