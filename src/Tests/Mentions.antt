-- ===== src/Tests/Mentions.antt =====
-- The mention lists at concrete inputs.
use resenhazord.Prelude.{
  ℕ, String, ◌≡◌, refl, Bool, true, some, [], ◌∷◌, string_eq, nat_eq, pair_eq,
}
use resenhazord.Prelude.Dict
use resenhazord.Text.{Unicode}
use resenhazord.Text.Split.{join}
use resenhazord.Text.Examples.{ascii}
use resenhazord.Jid.{normalize_jid, normalize_jids}
use resenhazord.Command.{CommandData, default_data}
use resenhazord.Command.Run.{ok, raised, unexpected, ParsedCommand}
use resenhazord.Distinct.{add_all}
use resenhazord.Message.{reply_text, reply_text_with}
use resenhazord.Mentions.{Docs, shown, upsert_unless_taken}
use resenhazord.Mentions.Service.{add_to, create, list_one, lookup, perform}
use resenhazord.Mentions.Tidy.{IsTidy}
use resenhazord.Mentions.Kept.{perform-IsTidy}
use resenhazord.Mentions.Created.{create-list_one}
use resenhazord.Mentions.Command.{execute}

abbrev alice : CommandData
alice = record (default_data "" "1@g.us" "7:3@s.whatsapp.net") {
  mentioned_jids = "8@lid" ∷ "7@s.whatsapp.net" ∷ [];
}

abbrev always : ℕ → Bool
always n = true

abbrev said : String → ParsedCommand
said rest = record { command_name = "grupo"; flags = []; options = []; rest = rest }

abbrev after_create : Docs
after_create =
    ("1@g.us", record { name = "bola"; participants = "7@s.whatsapp.net" ∷ "8@lid" ∷ [] } ∷ []) ∷ []

create_run :
    execute ascii always (λ docs. docs) [] alice (said " create @8 bola @7 ")
    ≡ (ok (reply_text alice "Grupo *bola* criado com sucesso! 🎉" ∷ []), after_create)
unfolding execute Dict.get Dict.put lookup join
create_run = refl

mention_run : execute ascii always (λ docs. docs) after_create alice (said "bola hoje tem") ≡ (
  ok (reply_text_with alice "hoje tem\n\n@7 @8" ("7@s.whatsapp.net" ∷ "8@lid" ∷ []) ∷ []),
  after_create,
)
unfolding execute Dict.get Dict.put lookup join
mention_run = refl

exit_run :
    execute ascii always
      (λ docs. docs)
      after_create
      (record alice { mentioned_jids = [] })
      (said "exit bola 2º")
    ≡ (
      ok (reply_text alice "Participantes removidos do grupo *bola* com sucesso! 🎉" ∷ []),
      ("1@g.us", record { name = "bola"; participants = "7@s.whatsapp.net" ∷ [] } ∷ []) ∷ [],
    )
unfolding execute Dict.get Dict.put lookup join
exit_run = refl

taken_run :
    execute ascii always (λ docs. docs) after_create alice (said "create bola")
    ≡ (ok (reply_text alice "Já existe um grupo com o nome *bola* 😔" ∷ []), after_create)
unfolding execute Dict.get Dict.put lookup join
taken_run = refl

-- A superscript is a digit to `isdigit`, and `int` refuses it.
abbrev superscript : Unicode
superscript = record ascii { is_digit = λ c. true }

superscript_run :
    execute superscript always (λ docs. docs) after_create alice (said "exit bola ²")
    ≡ (raised unexpected, after_create)
unfolding execute
superscript_run = refl

create-list_one_example :
    list_one ascii always
      (λ docs. docs)
      (create ascii always (λ docs. docs) [] "c" "7:3@lid" "bola" ("8@lid" ∷ [])).0
      "c"
      "bola"
    ≡ shown "bola"
        (add_all [] (normalize_jid ascii "7:3@lid" ∷ normalize_jids ascii (some "8@lid" ∷ [])))
unfolding create upsert_unless_taken Dict.get
create-list_one_example =
    create-list_one ascii always (λ docs. docs) [] "c" "7:3@lid" "bola" ("8@lid" ∷ []) refl

no_docs-IsTidy : IsTidy []
unfolding IsTidy Dict.get
no_docs-IsTidy chat gs e = absurd (cc e)

perform-IsTidy_example :
    IsTidy (perform ascii always (λ docs. docs) [] (add_to "c" "bola" "7@lid" [])).0
perform-IsTidy_example =
    perform-IsTidy ascii always (λ docs. docs) (λ docs h. h) [] (add_to "c" "bola" "7@lid" [])
      no_docs-IsTidy
