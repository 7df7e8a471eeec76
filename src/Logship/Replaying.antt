-- ===== src/Logship/Replaying.antt =====
-- The replay of internal/logship/shipper.go over a chain gives its events.
use toise.Common.{
  true, ℕ, ◌<◌, ◌^◌, ◌≡◌, sym, ap, ◌∙◌, inl, some, List, [], ◌∷◌, ◌++◌, arith, Str, str_Eq,
  append_assoc, append-nil,
}
use toise.Common.Dict.{Dict, get}
use toise.Model.Event.{Event}
use toise.Store.Snapshot.{Codec, event_frames}
use toise.Store.Snapshot.RoundTrip.{AllCoded}
use toise.Logship.{
  Shipper, segments, Replayed, after_events, replay_names, replay, check_chain, read_segment,
  apply_segment,
}
use toise.Logship.Decode.{decode_segment_lem}
use toise.Logship.Chain.{
  Segment, name_of, names_up, events_up, IsChain, AreStored, IsShipped, parsed,
}
use toise.Logship.Sorting.{sort_names-chain}

module _ ⦃codec : Codec⦄ where
  after_events-append :
      (xs ys : List Event) (r : Replayed)
      → after_events xs (after_events ys r) ≡ after_events (xs ++ ys) r
  after_events-append xs ys r =
      ap (λ evs. record { applied = evs; end = r.end }) (sym (append_assoc xs ys r.applied))

  check_chain_lem : (n t : ℕ) (rest : ℕ → Replayed) → check_chain n (some (n, t)) rest ≡ rest t
  check_chain_lem n t rest = ground arith

  replay_names-one :
      (objects : Dict Str Str) (tenant : Str) (s : Segment) (more : List Str)
      → s.from < s.to
      → s.to < 2 ^ 64
      → AllCoded s.events
      → get objects (name_of tenant s) ≡ some (event_frames s.events)
      → replay_names objects s.from (name_of tenant s ∷ more)
        ≡ after_events s.events (replay_names objects s.to more)
  unfolding replay_names
  replay_names-one objects tenant s more less fits coded h =
      let rest =
        λ (to : ℕ). read_segment (get objects (name_of tenant s)) (replay_names objects to more) in
      ap (λ o. check_chain s.from o rest) (parsed tenant s less fits)
      ∙ check_chain_lem s.from s.to rest
      ∙ ap (λ o. read_segment o (replay_names objects s.to more)) h
      ∙ ap (λ d. apply_segment d (replay_names objects s.to more))
          (decode_segment_lem s.events coded)

  replay_names-chain :
      (objects : Dict Str Str) (tenant : Str) (chain : List Segment) (end : ℕ) (more : List Str)
      → IsChain chain end
      → AreStored objects tenant chain
      → replay_names objects 0 (names_up tenant chain ++ more)
        ≡ after_events (events_up chain) (replay_names objects end more)
  replay_names-chain objects tenant [] end more c h = ap (λ n. replay_names objects n more) (sym c)
  replay_names-chain objects tenant (s ∷ older) end more c h =
      let (top, less, fits, coded, rest) = c in
      ap (replay_names objects 0)
        (append_assoc (names_up tenant older) (name_of tenant s ∷ []) more)
      ∙ replay_names-chain objects tenant older s.from (name_of tenant s ∷ more) rest h.1
      ∙ ap (after_events (events_up older))
          (replay_names-one objects tenant s more less fits coded h.0)
      ∙ after_events-append (events_up older) s.events (replay_names objects s.to more)
      ∙ ap (λ n. after_events (events_up older ++ s.events) (replay_names objects n more)) top

  pub replay_lem :
      (sh : Shipper) (tenant : Str) (chain : List Segment) (end : ℕ)
      → IsShipped sh tenant chain end
      → replay true sh tenant ≡ record { applied = events_up chain; end = inl end }
  unfolding replay
  replay_lem sh tenant chain end h =
      ap (replay_names sh.objects 0) (
        sort_names-chain tenant chain (segments sh.objects tenant) end h.linked h.listed
        ∙ sym (append-nil (names_up tenant chain)))
      ∙ replay_names-chain sh.objects tenant chain end [] h.linked h.stored
      ∙ ap (λ evs. record { applied = evs; end = inl end }) (append-nil (events_up chain))
