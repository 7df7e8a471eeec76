-- ===== src/Logship/Ship.antt =====
-- Shipping keeps the chain: what lands in the sink extends it, and a replay gives the log's events.
use toise.Logship.{
  ship_from, Shipper, segment_name, replay, ship, up_to, Put, put_done, put_landed, put_lost,
  put_segment, unmarshalable, knows_cursor,
}
use toise.Common.{
  ℕ, ◌<◌, ◌≤◌, ◌^◌, Bool, true, false, ◌≡◌, refl, sym, ap, subst, ◌∙◌, inl, inr, List, [], ◌∷◌,
  ◌++◌, arith, ltb, leb, length, Str, str_Eq, append-nil, keep, Bool-cases, is_empty, if◌then◌else◌,
}
use toise.Common.Dict.{Dict, get, put, remove, get-put_same, get-remove_same}
use toise.Model.Event.{Event}
use toise.Store.{Store, scan_from}
use toise.Store.Snapshot.{Codec, event_frames}
use toise.Store.Snapshot.RoundTrip.{AllCoded}
use toise.Logship.Chain.{Segment, events_up, Points, IsShipped, last_shipped_lem}
use toise.Logship.Replaying.{replay_lem}
use toise.Logship.Landing.{landed-IsShipped, cursor-IsShipped}

up_to-above :
    (current after : ℕ) (log : List (ℕ × Event))
    → current ≤ after
    → up_to current (keep (λ entry. ltb after entry.0) log) ≡ []
unfolding up_to
up_to-above current after [] h = refl
up_to-above current after (e ∷ log) h = ground (arith, up_to-above current after log h)

-- Whether the object of a Put is in the sink behind it.
abbrev pub has_landed : Put → Bool
has_landed put_lost = false
has_landed unmarshalable = false
has_landed _ = true

module _ ⦃codec : Codec⦄ where
  -- What the sink holds once `sent` has been added to what it held.
  pub record Extended (tenant : Str) (chain : List Segment) (sent : List Event) (after : Shipper)
      : Type 0 where
    pub newer : List Segment
    pub end : ℕ
    pub shipped : IsShipped after tenant newer end
    pub events : events_up newer ≡ events_up chain ++ sent

  unchanged :
      (tenant : Str) (chain : List Segment) (end : ℕ) (after : Shipper) (sent : List Event)
      → sent ≡ []
      → IsShipped after tenant chain end
      → Extended tenant chain sent after
  unchanged tenant chain end after sent e h = record {
    newer = chain;
    end = end;
    shipped = h;
    events = sym (ap (λ evs. events_up chain ++ evs) e ∙ append-nil (events_up chain));
  }

  abbrev pub sent_by : Put → List Event → List Event
  sent_by outcome events = if has_landed outcome then events else []

  -- What a ship adds to the sink: nothing where it has no cursor and the List fails.
  abbrev pub shipped_by : Bool → Put → Str → Shipper → List Event → List Event
  shipped_by lists outcome tenant sh events =
      if knows_cursor lists tenant sh then sent_by outcome events else []

  sent-none : (outcome : Put) (events : List Event) → events ≡ [] → sent_by outcome events ≡ []
  sent-none put_done events e = e
  sent-none put_landed events e = e
  sent-none put_lost events e = refl
  sent-none unmarshalable events e = refl

  is_empty_lem : (events : List Event) → is_empty events ≡ true → events ≡ []
  is_empty_lem [] h = refl
  is_empty_lem (ev ∷ events) h = absurd cc

  Points-put : (d : Dict Str ℕ) (tenant : Str) (n : ℕ) → Points (get (put d tenant n) tenant) n
  Points-put d tenant n = subst (λ o. Points o n) (sym (get-put_same d tenant n)) refl

  Points-remove : (d : Dict Str ℕ) (tenant : Str) (n : ℕ) → Points (get (remove d tenant) tenant) n
  Points-remove d tenant n = subst (λ o. Points o n) (sym (get-remove_same d tenant)) tt

  put_segment-Extended :
      (outcome : Put) (tenant : Str) (current : ℕ) (sh : Shipper) (chain : List Segment) (end : ℕ)
      (events : List Event)
      → IsShipped sh tenant chain end
      → end < current
      → current < 2 ^ 64
      → AllCoded events
      → Extended tenant chain
          (sent_by outcome events)
          (put_segment outcome tenant current
            (length events)
            (segment_name tenant end current)
            (event_frames events)
            (record sh { cursor = put sh.cursor tenant end })).0
  put_segment-Extended put_done tenant current sh chain end events h f l c =
      let s : Segment = record { from = end; to = current; events = events } in
      record {
        newer = s ∷ chain;
        end = current;
        shipped =
            landed-IsShipped sh tenant chain end s (put (put sh.cursor tenant end) tenant current) h
              refl f l c (Points-put (put sh.cursor tenant end) tenant current);
        events = refl;
      }
  put_segment-Extended put_landed tenant current sh chain end events h f l c =
      let s : Segment = record { from = end; to = current; events = events } in
      record {
        newer = s ∷ chain;
        end = current;
        shipped =
            landed-IsShipped sh tenant chain end s (remove (put sh.cursor tenant end) tenant) h refl
              f l c (Points-remove (put sh.cursor tenant end) tenant current);
        events = refl;
      }
  put_segment-Extended put_lost tenant current sh chain end events h f l c =
      unchanged tenant chain end _ [] refl (
        cursor-IsShipped sh tenant chain end (remove (put sh.cursor tenant end) tenant) h
          (Points-remove (put sh.cursor tenant end) tenant end))
  put_segment-Extended unmarshalable tenant current sh chain end events h f l c =
      unchanged tenant chain end _ [] refl (
        cursor-IsShipped sh tenant chain end (put sh.cursor tenant end) h
          (Points-put sh.cursor tenant end))

  ship_from-Extended :
      (outcome : Put) (tenant : Str) (current : ℕ) (sh : Shipper) (chain : List Segment) (end : ℕ)
      (events : List Event)
      → IsShipped sh tenant chain end
      → current < 2 ^ 64
      → AllCoded events
      → (current ≤ end → events ≡ [])
      → Extended tenant chain
          (sent_by outcome events)
          (ship_from outcome tenant current sh end events).0
  ship_from-Extended outcome tenant current sh chain end events h l c n =
      elim (Bool-cases (leb current end)) [
        | inl b ↦ rw b (
            unchanged tenant chain end _ (sent_by outcome events)
              (sent-none outcome events (n (ground arith)))
              (cursor-IsShipped sh tenant chain end (put sh.cursor tenant end) h
                (Points-put sh.cursor tenant end)))
        | inr b ↦ elim (Bool-cases (is_empty events)) [
          | inl m ↦
              rw (b, m)
                (unchanged tenant chain end _ (sent_by outcome events)
                  (sent-none outcome events (is_empty_lem events m))
                  (cursor-IsShipped sh tenant chain end (put sh.cursor tenant end) h
                    (Points-put sh.cursor tenant end)))
          | inr m ↦
              rw (b, m)
                (put_segment-Extended outcome tenant current sh chain end events h (ground arith) l
                  c)
        ]
      ]

  -- Let a sink hold, in whatever order it lists them, a chain of segments of the tenant from 0 and
  -- nothing else of it. A ship, whatever becomes of its List, its encoding and its Put, leaves a
  -- sink that holds such a chain again: the events that it held and, where the object landed,
  -- behind them those of the source between the chain's end and `current`. `current` is below 2 ^
  -- 64, and those events are ones that the codec reads back.
  pub ship-Extended :
      (lists : Bool) (outcome : Put) (tenant : Str) (current : ℕ) (source : Store) (sh : Shipper)
      (chain : List Segment) (end : ℕ)
      → IsShipped sh tenant chain end
      → current < 2 ^ 64
      → AllCoded (up_to current (scan_from source end))
      → Extended tenant chain
          (shipped_by lists outcome tenant sh (up_to current (scan_from source end)))
          (ship lists outcome tenant current source sh).0
  unfolding ship scan_from
  ship-Extended lists outcome tenant current source sh chain end h l c =
      let from = last_shipped_lem sh tenant chain end h in
      elim (Bool-cases (knows_cursor lists tenant sh)) [
        | inl b ↦ rw b (
            subst
              (λ n.
                Extended tenant chain (sent_by outcome (up_to current (scan_from source end)))
                  (ship_from outcome tenant current sh n (up_to current (scan_from source n))).0)
              (sym from)
              (ship_from-Extended outcome tenant current sh chain end
                (up_to current (scan_from source end)) h l c
                (λ le. up_to-above current end source.log le)))
        | inr b ↦ rw b (unchanged tenant chain end sh [] refl h)
      ]

  knows-sent :
      (tenant : Str) (sh : Shipper) (events : List Event)
      → shipped_by true put_done tenant sh events ≡ events
  knows-sent tenant sh events = ground arith

  -- Behind a ship whose object lands, a replay applies the events that a replay applied before and
  -- behind them those of the source between the chain's end and `current`. The sink holds, in
  -- whatever order it lists them, a chain of segments of the tenant from 0 and nothing else of it
  -- and can be listed; `current` is below 2 ^ 64, and the new events are ones that the codec reads
  -- back.
  pub replay-ship :
      (tenant : Str) (current : ℕ) (source : Store) (sh : Shipper) (chain : List Segment) (end : ℕ)
      → IsShipped sh tenant chain end
      → current < 2 ^ 64
      → AllCoded (up_to current (scan_from source end))
      → (replay true (ship true put_done tenant current source sh).0 tenant).applied
        ≡ (replay true sh tenant).applied ++ up_to current (scan_from source end)
  replay-ship tenant current source sh chain end h l c =
      let ext = ship-Extended true put_done tenant current source sh chain end h l c in
      ap (λ r. r.applied)
        (replay_lem (ship true put_done tenant current source sh).0 tenant ext.newer ext.end
          ext.shipped)
      ∙ ext.events
      ∙ ap (λ evs. events_up chain ++ evs)
          (knows-sent tenant sh (up_to current (scan_from source end)))
      ∙ ap (λ r. r.applied ++ up_to current (scan_from source end))
          (sym (replay_lem sh tenant chain end h))
