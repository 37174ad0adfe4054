-- ===== src/CdpClient.antt =====
-- env/cdp.py: the choice of a page and the requests of `cdp_client`, which are matched by their id.
pub mod Requests
pub mod Pages
mod Samples
use Prim.Native.Char.{code}
use celestia_devtools.Prelude.{
  ℕ, zero, suc, ◌+◌, ◌-◌, String, Bool, true, false, Option, none, some, List, [], ◌∷◌, ◌++◌, ltb,
  ◌==◌, str_eq, if◌then◌else◌, ◌||◌, ◌&&◌, not, select, length,
}

-- A target of /json/list: its id, type and url as `str` gives them, "" where one is missing.
pub record Page : Type 0 where
  pub id : String
  pub kind : String
  pub url : String

-- url.startswith(prefix)
unfoldable pub starts_with : String → String → Bool
starts_with s String.[] = true
starts_with String.[] (String.◌∷◌ c prefix) = false
starts_with (String.◌∷◌ d s) (String.◌∷◌ c prefix) = code d == code c && starts_with s prefix

unfoldable pub first_where : (Page → Bool) → List Page → Option Page
first_where p [] = none
first_where p (page ∷ pages) =
    let later = first_where p pages in if p page then some page else later

abbrev pub is_page : Page → Bool
is_page page = str_eq page.kind "page" && not (starts_with page.url "devtools://")

abbrev pub is_real : Page → Bool
is_real page =
    starts_with page.url "http://"
    || (starts_with page.url "https://"
        || (starts_with page.url "tauri://" || starts_with page.url "file://"))

abbrev first_of : List Page → Option Page
first_of [] = none
first_of (page ∷ pages) = some page

unfoldable pub prefer_real : List Page → Option Page
unfolding first_where starts_with
prefer_real pages = elim (first_where is_real pages) [
  | some page ↦ some page
  | none ↦ first_of pages
]

unfoldable pub select_page_target : List Page → (prefer_url target_id : String) → Option Page
unfolding first_where prefer_real starts_with
select_page_target targets prefer_url target_id =
    let pages = select is_page targets in
    if not (str_eq target_id "")
    then first_where (λ page. str_eq page.id target_id) targets
    else if str_eq prefer_url ""
    then prefer_real pages
    else elim (first_where (λ page. starts_with page.url prefer_url) pages) [
      | some page ↦ some page
      | none ↦ prefer_real pages
    ]

-- An event: the values of `method` and `params` as JSON texts, `none` for the empty object, which
-- stands in for a `params` that is missing or false.
pub record Event : Type 0 where
  pub method : String
  pub params : Option String

-- A message that `recv_text` gave, as JSON: its id where that is a number, whether `error` is there,
-- the result (`none` where it is no object), and the event where it has the key `method`.
pub data Message : Type 0 where
  not_json not_object : Message
  object : (id : Option ℕ) (error : Bool) (result : Option String) (event : Option Event) → Message

pub record Client : Type 0 where
  pub next_id : ℕ
  pub events : List Event

pub data Reply : Type 0 where
  result : Option String → Reply
  protocol cdp_error disconnected : Reply

abbrev pub is_reply_to : ℕ → Option ℕ → Bool
is_reply_to wanted none = false
is_reply_to wanted (some id) = id == wanted

unfoldable pub drop_first : ℕ → List Event → List Event
drop_first zero events = events
drop_first (suc n) [] = []
drop_first (suc n) (event ∷ events) = drop_first n events

-- `if len(events) > limit: del events[:count]`
unfoldable pub trim : (limit count : ℕ) → List Event → List Event
unfolding drop_first
trim limit count events = if ltb limit (length events) then drop_first count events else events

-- The buffering of an event, bounded.
unfoldable pub buffer : Option Event → List Event → List Event
unfolding trim
buffer none events = events
buffer (some event) events = trim 1000 500 (events ++ event ∷ [])

-- The loop of `request` over the messages to come; a stream that ends raises.
unfoldable pub await_reply : ℕ → List Event → List Message → Reply × List Event × List Message
unfolding buffer
await_reply wanted events [] = (disconnected, events, [])
await_reply wanted events (not_json ∷ stream) = (protocol, events, stream)
await_reply wanted events (not_object ∷ stream) = (protocol, events, stream)
await_reply wanted events (object id error answer event ∷ stream) =
    let later = await_reply wanted (buffer event events) stream in
    if is_reply_to wanted id
    then (if error then cdp_error else result answer, events, stream)
    else later

-- `request`, once its text is sent.
unfoldable pub request : Client → List Message → Reply × Client × List Message
unfolding await_reply
request c stream =
    let (reply, events, rest) = await_reply (c.next_id + 1) c.events stream in
    (reply, record { next_id = c.next_id + 1; events = events }, rest)
