-- ===== src/Handler/Dispatch.antt =====
-- What bot/application/command_handler.py does with a command that was found.
use resenhazord.Prelude.{ℕ, ◌≤◌, ◌≡◌, false, arith}
use resenhazord.Command.{CommandData}
use resenhazord.Command.Run.{Command}
use resenhazord.DevList.{is_dev}
use resenhazord.Gate.{admit, dev_key}
use resenhazord.Handler.{Parts, dispatch}

module _ {W S : Type 0} (parts : Parts W S) (cmd : Command W) where
  -- Somebody who is not on the list of developers gets one run, whatever number the text asks for.
  pub dispatch-batch_ignored :
      (d : CommandData) (repeat : ℕ) (w : W) (s : S)
      → 1 ≤ repeat
      → is_dev parts.unicode parts.devs (dev_key d) ≡ false
      → dispatch parts cmd d repeat w s ≡ dispatch parts cmd d 1 w s
  unfolding dispatch admit
  dispatch-batch_ignored d repeat w s h e = ground arith
