-- ===== src/CdpClient/Requests.antt =====
-- env/cdp.py: a reply is that of its request, and the buffer of the events is bounded.
use celestia_devtools.Prelude.{
  ℕ, zero, suc, ◌+◌, ◌-◌, ◌≤◌, String, Bool, true, false, Option, none, some, List, [], ◌∷◌, ◌++◌,
  ltb, ◌==◌, if◌then◌else◌, length, length-append, ◌≡◌, refl, arith, Bool-cases, inl, inr, ap, ◌∙◌,
  ==_iff, subst, sym, ◌<◌, ◌⊎◌,
}
use mathlib.Core.List.{append_assoc, append-nil}
use celestia_devtools.CdpClient.{
  Event, Message, not_json, not_object, object, Client, result, cdp_error, is_reply_to, drop_first,
  trim, buffer, await_reply, request,
}

length-drop_first : (n : ℕ) (events : List Event) → length (drop_first n events) ≡ length events - n
unfolding drop_first
length-drop_first zero events = omega arith
length-drop_first (suc n) [] = omega arith
length-drop_first (suc n) (event ∷ events) = omega (arith, length-drop_first n events)

length-trim :
    (limit count : ℕ) (events : List Event)
    → length events ≤ suc limit
    → 1 ≤ count
    → length (trim limit count events) ≤ limit
unfolding trim
length-trim limit count events h pos = elim (Bool-cases (ltb limit (length events))) [
  | inl over ↦ rw (trim, over) (omega (arith, length-drop_first count events))
  | inr within ↦ rw (trim, within) (ground (arith, within))
]

length-buffer :
    (event : Option Event) (events : List Event)
    → length events ≤ 1000
    → length (buffer event events) ≤ 1000
unfolding buffer
length-buffer none events h = h
length-buffer (some event) events h =
    length-trim 1000 500 (events ++ event ∷ []) (omega (arith, length-append events (event ∷ [])))
      (omega arith)

length-await_reply :
    (wanted : ℕ) (events : List Event) (stream : List Message)
    → length events ≤ 1000
    → length (await_reply wanted events stream).1 ≤ 1000
unfolding await_reply
length-await_reply wanted events [] h = h
length-await_reply wanted events (not_json ∷ stream) h = h
length-await_reply wanted events (not_object ∷ stream) h = h
length-await_reply wanted events (object id error answer event ∷ stream) h =
    elim (Bool-cases (is_reply_to wanted id)) [
      | inl yes' ↦ rw (await_reply, yes') h
      | inr other ↦
          rw (await_reply, other)
            (length-await_reply wanted (buffer event events) stream (length-buffer event events h))
    ]

-- No request lets the buffer of the events grow beyond 1000.
pub request-bounded :
    (c : Client) (stream : List Message)
    → length c.events ≤ 1000
    → length (request c stream).1.events ≤ 1000
unfolding request
request-bounded c stream h = length-await_reply (c.next_id + 1) c.events stream h

-- The message is an object with another id, or with none.
abbrev pub IsOther : ℕ → Message → Type 0
IsOther wanted (object id error answer event) = is_reply_to wanted id ≡ false
IsOther wanted message = ⊥

abbrev pub AllOther : ℕ → List Message → Type 0
AllOther wanted [] = Unit
AllOther wanted (m ∷ ms) = IsOther wanted m × AllOther wanted ms

-- The buffer after the loop has passed over messages.
buffered : List Event → List Message → List Event
buffered events [] = events
buffered events (object id error answer event ∷ ms) = buffered (buffer event events) ms
buffered events (m ∷ ms) = buffered events ms

-- The events among messages, in order.
abbrev pub one_event : Option Event → List Event
one_event none = []
one_event (some event) = event ∷ []

abbrev pub events_of : List Message → List Event
events_of [] = []
events_of (object id error answer event ∷ ms) = one_event event ++ events_of ms
events_of (m ∷ ms) = events_of ms

-- What is kept of a list: all of up to 1000, and else the last 501 at least.
pub record IsKept (all kept : List Event) : Type 0 where
  pub lost : List Event
  pub split : lost ++ kept ≡ all
  pub nothing_lost : length all ≤ 1000 → lost ≡ []
  pub latest : 1000 < length all → 501 ≤ length kept

pass_over :
    (wanted : ℕ) (events : List Event) (before stream : List Message)
    → AllOther wanted before
    → await_reply wanted events (before ++ stream)
      ≡ await_reply wanted (buffered events before) stream
unfolding await_reply buffered
pass_over wanted events [] stream others = refl
pass_over wanted events (not_json ∷ ms) stream others = absurd others.0
pass_over wanted events (not_object ∷ ms) stream others = absurd others.0
pass_over wanted events (object id error answer event ∷ ms) stream others =
    rw (await_reply, others.0) (pass_over wanted (buffer event events) ms stream others.1)

replied :
    (wanted : ℕ) (events : List Event) (id : ℕ) (error : Bool) (answer : Option String)
    (event : Option Event) (rest : List Message)
    → (id == wanted) ≡ true
    → await_reply wanted events (object (some id) error answer event ∷ rest)
      ≡ (if error then cdp_error else result answer, events, rest)
unfolding await_reply
replied wanted events id error answer event rest same = rw (await_reply, same) refl

le_or_lt : (n m : ℕ) → (n ≤ m) ⊎ (m < n)
le_or_lt n m = elim (Bool-cases (ltb m n)) [
  | inl less ↦ inr (ground (arith, less))
  | inr more ↦ inl (ground (arith, more))
]

drop_first-split :
    (n : ℕ) (events : List Event) → (front : List Event) × (front ++ drop_first n events ≡ events)
unfolding drop_first
drop_first-split zero events = ([], refl)
drop_first-split (suc n) [] = ([], refl)
drop_first-split (suc n) (event ∷ events) =
    let (front, e) = drop_first-split n events in (event ∷ front, ap (λ l. event ∷ l) e)

-- The buffering of one event.
buffer-IsKept :
    (event : Event) (events : List Event)
    → IsKept (events ++ event ∷ []) (buffer (some event) events)
unfolding buffer trim
buffer-IsKept event events =
    let all = events ++ event ∷ [] in
    elim (Bool-cases (ltb 1000 (length all))) [
      | inr within ↦
          rw (buffer, trim, within)
            (record {
              lost = [];
              split = refl;
              nothing_lost = λ h. refl;
              latest = λ h. ground (arith, within);
            })
      | inl over ↦
          rw (buffer, trim, over)
            (record {
              lost = (drop_first-split 500 all).0;
              split = (drop_first-split 500 all).1;
              nothing_lost = λ h. absurd (ground (arith, over));
              latest = λ h. omega (arith, length-drop_first 500 all);
            })
    ]

IsKept-append :
    (all middle kept more : List Event)
    → IsKept all middle
    → IsKept (middle ++ more) kept
    → IsKept (all ++ more) kept
IsKept-append all middle kept more a b = record {
  lost = a.lost ++ b.lost;
  split =
      append_assoc a.lost b.lost kept
      ∙ ap (λ l. a.lost ++ l) b.split
      ∙ sym (append_assoc a.lost middle more)
      ∙ ap (λ l. l ++ more) a.split;
  nothing_lost = λ h.
      let none_lost = a.nothing_lost (omega (arith, h, length-append all more)) in
      let same = subst (λ l. l ++ middle ≡ all) none_lost a.split in
      let rest = b.nothing_lost (rw same h) in rw (none_lost, rest) refl;
  latest = λ h. elim (le_or_lt (length (middle ++ more)) 1000) [
    | inl short ↦
        let whole = subst (λ l. l ++ kept ≡ middle ++ more) (b.nothing_lost short) b.split in
        elim (le_or_lt (length all) 1000) [
          | inl small ↦
              let same = subst (λ l. l ++ middle ≡ all) (a.nothing_lost small) a.split in
              absurd (
                omega (
                  arith,
                  short,
                  h,
                  length-append all more,
                  length-append middle more,
                  ap length same,
                ))
          | inr big ↦ omega (arith, a.latest big, length-append middle more, ap length whole)
        ]
    | inr long ↦ b.latest long
  ];
}

buffered-IsKept :
    (events : List Event) (ms : List Message) → IsKept (events ++ events_of ms) (buffered events ms)
unfolding buffered buffer
buffered-IsKept events [] = record {
  lost = [];
  split = sym (append-nil events);
  nothing_lost = λ h. refl;
  latest = λ h. omega (arith, h, length-append events []);
}
buffered-IsKept events (not_json ∷ ms) = buffered-IsKept events ms
buffered-IsKept events (not_object ∷ ms) = buffered-IsKept events ms
buffered-IsKept events (object id error answer none ∷ ms) = buffered-IsKept events ms
buffered-IsKept events (object id error answer (some event) ∷ ms) =
    subst (λ all. IsKept all (buffered (buffer (some event) events) ms))
      (append_assoc events (event ∷ []) (events_of ms))
      (IsKept-append (events ++ event ∷ []) (buffer (some event) events)
        (buffered (buffer (some event) events) ms) (events_of ms) (buffer-IsKept event events)
        (buffered-IsKept (buffer (some event) events) ms))

-- A request whose reply comes behind any messages with other ids gets the result of that reply, or
-- raises for its error, and what comes after is unread. The events of the messages before, with
-- their method and params, are in the buffer in order, behind those of before: all of them where they
-- are no more than 1000 together, and else at least the last 501.
pub request-replied :
    (c : Client) (before rest : List Message) (id : ℕ) (error : Bool) (answer : Option String)
    (event : Option Event)
    → AllOther (c.next_id + 1) before
    → id ≡ c.next_id + 1
    → (kept : List Event) × (request c (before ++ object (some id) error answer event ∷ rest) ≡ (
      if error then cdp_error else result answer,
      record { next_id = c.next_id + 1; events = kept },
      rest,
    ))
      × IsKept (c.events ++ events_of before) kept
unfolding request
request-replied c before rest id error answer event others same = (
  buffered c.events before,
  ap (λ x. (x.0, record { next_id = c.next_id + 1; events = x.1 }, x.2))
      (pass_over (c.next_id + 1) c.events before (object (some id) error answer event ∷ rest) others
        ∙ replied (c.next_id + 1) (buffered c.events before) id error answer event rest
            ((==_iff id (c.next_id + 1)).1 same)),
  buffered-IsKept c.events before,
)
