-- ===== src/Engine/Loop/Runs.antt =====
-- Whole runs of an engine from its creation (crates/arbkit-engine/src/engine.rs): markets are registered
-- and events processed in any order.
use arbkit.Prelude.{
  ℕ, ◌≡◌, refl, Option, none, some, List, [], ◌∷◌, Checked, accepted, rejected, All, inl, inr, ◌⊎◌,
}
use arbkit.Prelude.Int.{pos, ◌≤ℤ◌, i64_max}
use arbkit.Feed.Event.{FeedEvent, IsEvent}
use arbkit.Engine.Slab.{EngineSlab, EngineError, MarketConfig, register_market}
use arbkit.Engine.Loop.{Engine, SignalEvent, new_engine, register, process_event}
use arbkit.Engine.Loop.Books.{IsRunning, new_slab-IsRunning, register_market-IsRunning}
use arbkit.Engine.Loop.Emitted.{IsEmitted, Processed, process_event-Processed}

pub data Input : Type 0 where
  registering : ℕ → MarketConfig → Input
  feeding : FeedEvent → ℕ → Input

-- The types of the source can hold it.
abbrev pub IsInput : Input → Type 0
IsInput (registering market config) = config.budget ≤ℤ pos i64_max
IsInput (feeding event emit_timestamp_ns) = IsEvent event

-- A signal, with the event and the clock reading of the call that returned it, and the engine before and
-- after that call.
pub record Emission : Type 0 where
  pub event : FeedEvent
  pub time : ℕ
  pub before : Engine
  pub after : Engine
  pub signal : SignalEvent

abbrev emission :
    FeedEvent → ℕ → Engine → Option SignalEvent × Engine → List Emission → List Emission
emission event time before (none, after) rest = rest
emission event time before (some signal, after) rest =
    record { event = event; time = time; before = before; after = after; signal = signal } ∷ rest

-- A registration that fails leaves the engine as it was.
abbrev registered : ℕ → MarketConfig → Engine → Engine
registered market config engine = elim (register market config engine) [
  | rejected e ↦ engine
  | accepted engine' ↦ engine'
]

-- The signals of a run, in order, and the engine after it.
unfoldable pub run_inputs : List Input → Engine → List Emission × Engine
run_inputs [] engine = ([], engine)
run_inputs (registering market config ∷ inputs) engine =
    run_inputs inputs (registered market config engine)
run_inputs (feeding event time ∷ inputs) engine =
    let r = process_event event time engine in
    let (rest, end_) = run_inputs inputs r.1 in (emission event time engine r rest, end_)

abbrev IsSent : Emission → Type 0
IsSent x = IsEmitted x.event x.time x.before x.after x.signal

registered-IsRunning :
    (m : ℕ) (config : MarketConfig) (g : Engine)
    → config.budget ≤ℤ pos i64_max
    → IsRunning g.slab
    → IsRunning (registered m config g).slab
unfolding register
registered-IsRunning m config g b h = elim (cases (register_market m config g.slab)) [
  | inl (e, bad) ↦
      let q : register m config g ≡ rejected e = rw (bad, register) refl in rw (q, registered) h
  | inr (s, good) ↦
      let q : register m config g ≡ accepted (record g { slab = s }) = rw (good, register) refl in
      rw (q, registered) (register_market-IsRunning m config g.slab s b h good)
]
  where
    cases :
        (r : Checked EngineError EngineSlab)
        → ((e : EngineError) × (r ≡ rejected e)) ⊎ ((s : EngineSlab) × (r ≡ accepted s))
    cases (rejected e) = inl (e, refl)
    cases (accepted s) = inr (s, refl)

run_all :
    (inputs : List Input) (g : Engine)
    → All IsInput inputs
    → IsRunning g.slab
    → All IsSent (run_inputs inputs g).0 × IsRunning (run_inputs inputs g).1.slab
unfolding run_inputs
run_all [] g h k = (tt, k)
run_all (registering m config ∷ inputs) g (b, h) k =
    run_all inputs (registered m config g) h (registered-IsRunning m config g b k)
run_all (feeding event time ∷ inputs) g (valid, h) k =
    let p = process_event-Processed event time g valid k in
    let (sent, end_) = run_all inputs (process_event event time g).1 h p.running in
    (
      go (process_event event time g) p (run_inputs inputs (process_event event time g).1).0 sent,
      end_,
    )
  where
    go :
        (r : Option SignalEvent × Engine)
        → Processed event time g r
        → (rest : List Emission) → All IsSent rest
        → All IsSent (emission event time g r rest)
    go (none, after) p rest sent = sent
    go (some signal, after) p rest sent = (p.emitted signal refl, sent)

-- However markets are registered and events processed, from the creation of the engine on, every signal
-- that it emits is for the market of its event and sound in the slab at that moment: it gains, its stake
-- is within the market's budget, every outcome of the market is covered, and each stake can be executed
-- on a live level; the cooldown of the market let it through. The slab keeps its invariant.
pub run_inputs-IsEmitted :
    (n : ℕ) (inputs : List Input)
    → All IsInput inputs
    → All
        (λ x. IsEmitted x.event x.time x.before x.after x.signal)
        (run_inputs inputs (new_engine n)).0
      × IsRunning (run_inputs inputs (new_engine n)).1.slab
unfolding new_engine
run_inputs-IsEmitted n inputs h = run_all inputs (new_engine n) h (new_slab-IsRunning n)
