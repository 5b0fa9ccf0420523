-- ===== src/Tests/Registry.antt =====
-- Runs of the registry of servers.
use pywings.Prelude.{
  ◌≡◌, refl, Bool, true, false, Option, some, if◌then◌else◌, List, [], ◌∷◌, map, Text, lit, text_eq,
}
use pywings.Prelude.Dict
use pywings.Prelude.Dict.{Dict}
use pywings.Json.{Json, null, obj, arr, end, truthy}
use pywings.Servers.{Server, offline, running, save, to_items, bare}
use pywings.Servers.Persistence.{AreNamed, NodupKeys}
use pywings.Servers.Synced.{
  IsValid, Call, presence, removal, transition, configuration, perform_all, restart, written,
  load-perform_all,
}

-- A test for UUIDs in place of the library's.
abbrev accepts : Text → Bool
accepts uuid = true

abbrev two : Dict Server
two =
    (
      lit "a",
      (record { uuid = lit "a"; configuration = obj end; state = running; is_suspended = false }),
    )
    ∷ (
      lit "b",
      (record { uuid = lit "b"; configuration = null; state = offline; is_suspended = true }),
    )
    ∷ []

two-AreNamed : AreNamed accepts two
two-AreNamed = ((refl, refl), ((refl, refl), tt))

two-NodupKeys : NodupKeys two
unfolding Dict.lookup text_eq
two-NodupKeys = (refl, (refl, tt))

save-IsValid : IsValid accepts (save two)
unfolding save
save-IsValid = record { synced = refl; named = two-AreNamed; distinct = two-NodupKeys }

abbrev calls : List Call
calls =
    presence (lit "c")
    ∷ transition (lit "a") running
    ∷ removal (lit "b")
    ∷ configuration (lit "c") (obj end)
    ∷ []

-- A file of one text, in place of the library's.
abbrev held : Dict Server
held = (perform_all calls (save two)).servers

abbrev dumps : Json → Text
dumps v = lit "[...]"

abbrev loads : Text → Option Json
loads text = some (arr (to_items held))

load-perform_all_example :
    restart accepts dumps loads (written accepts dumps loads (perform_all calls (save two)))
    ≡ some (
        map
          (λ (k, r). (
            k,
            record {
              uuid = r.uuid;
              configuration = if truthy r.configuration then r.configuration else bare r.uuid;
              state = offline;
              is_suspended = r.is_suspended;
            },
          ))
          held)
load-perform_all_example =
    load-perform_all accepts dumps loads calls (save two) (refl, (tt, (tt, (refl, tt))))
      save-IsValid refl
