-- ===== src/CommandText/Laws.antt =====
-- The batch suffix that `split_batch` of bot/application/command_text.py takes off.
use resenhazord.Prelude.{◌≤◌, ◌≡◌, arith}
use resenhazord.Text.{Unicode}
use resenhazord.Command.{CommandData}
use resenhazord.CommandText.{split_batch}

module _ (u : Unicode) (d : CommandData) where
  -- A command is asked for at least once and at most five times, and nothing but the text changes.
  pub split_batch_bounds :
      (1 ≤ (split_batch u d).0)
      × ((split_batch u d).0 ≤ 5)
      × ((split_batch u d).1 ≡ record d { text = (split_batch u d).1.text })
  unfolding split_batch
  split_batch_bounds = ground arith
