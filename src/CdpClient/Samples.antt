-- ===== src/CdpClient/Samples.antt =====
-- env/cdp.py: three targets and a reply behind two events, and the theorems at them.
use celestia_devtools.Prelude.{
  ◌≤◌, true, false, not, none, some, List, [], ◌∷◌, ◌++◌, ◌≡◌, refl, arith, Elem, select, str_eq,
  ◌⊎◌, ◌&&◌, length,
}
use celestia_devtools.CdpClient.{
  Page, starts_with, is_page, is_real, select_page_target, Event, Message, object, Client, result,
  request,
}
use celestia_devtools.CdpClient.Requests.{request-bounded, IsKept, request-replied, events_of}
use celestia_devtools.CdpClient.Pages.{IsPick, select_page_target-IsPick}

abbrev app : Page
app = record { id = "2"; kind = "page"; url = "tauri://localhost" }

abbrev targets : List Page
targets =
    record { id = "0"; kind = "worker"; url = "http://x" }
    ∷ record { id = "1"; kind = "page"; url = "about:blank" }
    ∷ app
    ∷ []

picks : select_page_target targets "http://none" "" ≡ some app
unfolding select_page_target
picks = refl

picked_page :
    (IsPick is_real (select is_page targets) app
      × ((q : Page)
          → Elem q (select is_page targets)
          → (not (str_eq "http://none" "") && starts_with q.url "http://none") ≡ false))
    ⊎ (Elem app (select is_page targets) × (starts_with app.url "http://none" ≡ true))
picked_page = select_page_target-IsPick targets "http://none" app picks

abbrev client : Client
client = record { next_id = 4; events = [] }

abbrev loaded : Event
loaded = record { method = "Page.loaded"; params = none }

abbrev entry : Event
entry = record { method = "Log.entry"; params = some "{'level': 'warn'}" }

abbrev events : List Message
events = object none false none (some loaded) ∷ object (some 4) false none (some entry) ∷ []

request-replied_example :
    (kept : List Event) × (request client (events ++ object (some 5) false (some "ok") none ∷ [])
      ≡ (result (some "ok"), record { next_id = 5; events = kept }, []))
    × IsKept ([] ++ events_of events) kept
request-replied_example =
    request-replied client events [] 5 false (some "ok") none (refl, (refl, tt)) refl

request-bounded_example : length (request client events).1.events ≤ 1000
request-bounded_example = request-bounded client events (omega arith)
