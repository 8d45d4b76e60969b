-- ===== src/Engine/Loop/Emitted.antt =====
-- The signals that the engine emits (crates/arbkit-engine/src/engine.rs, `process_event`).
use arbkit.Prelude.{
  ℕ, ◌-◌, ◌≡◌, refl, sym, ap, ◌∙◌, true, not, ◌&&◌, Option, none, some, List, [], ◌∷◌, Checked,
  accepted, rejected, All, All-get_or, get_or, arith, ltb, ◌==◌, Bool-cases, Option-cases, inl, inr,
  ◌⊎◌, length-set,
}
use arbkit.Prelude.Int.{pos, ◌≤ℤ◌, i64_max}
use arbkit.Core.Price.{IsProb}
use arbkit.Core.Book.{OutcomeBook}
use arbkit.Core.Arb.{Leg, Allocation, Signal, allocations}
use arbkit.Feed.Event.{
  FeedEvent, snapshot, delta, trade, heartbeat, halt, IsEvent, timestamp_ns, market_id,
}
use arbkit.Engine.Slab.{
  EngineSlab, EngineError, MarketConfig, default_market, get_book, get_config, emit_admitted,
  note_emit,
}
use arbkit.Engine.Aggregator.{evaluate_market}
use arbkit.Engine.Aggregator.Legs.{IsPriced}
use arbkit.Engine.Aggregator.Sound.{IsSound, IsExecutable, Aligned}
use arbkit.Engine.Aggregator.Evaluated.{evaluate_market-Evaluated, evaluate_market-IsSound}
use arbkit.Engine.Loop.{
  Engine, SignalEvent, apply_event, evaluated_market, evaluate_event, take_event, process_event,
}
use arbkit.Engine.Loop.Books.{IsBook, IsRunning, Updated, apply_event-Updated}

-- A slab with the same books and configurations.
record SameBooks (s s' : EngineSlab) : Type 0 where
  same_books : s'.books ≡ s.books
  same_configs : s'.configs ≡ s.configs
  same_size : s'.max_markets ≡ s.max_markets

note_emit-SameBooks : (m t : ℕ) (s : EngineSlab) → SameBooks s (note_emit m t s)
unfolding note_emit
note_emit-SameBooks m t s = elim (Bool-cases (ltb m s.max_markets && not (t == 0))) [
  | inl noted ↦ rw noted (record { same_books = refl; same_configs = refl; same_size = refl })
  | inr kept ↦ rw kept (record { same_books = refl; same_configs = refl; same_size = refl })
]

note_emit-IsRunning : (m t : ℕ) (s : EngineSlab) → IsRunning s → IsRunning (note_emit m t s)
unfolding note_emit
note_emit-IsRunning m t s h = elim (Bool-cases (ltb m s.max_markets && not (t == 0))) [
  | inl noted ↦ rw noted (record {
    sized = record {
      books = h.sized.books;
      configs = h.sized.configs;
      emits = length-set s.last_emit_ns m t ∙ h.sized.emits;
    };
    books = h.books;
    budgets = h.budgets;
  })
  | inr kept ↦ rw kept h
]

get_book-same :
    (s s' : EngineSlab) (m o v : ℕ) → SameBooks s s' → get_book m o v s' ≡ get_book m o v s
unfolding get_book
get_book-same s s' m o v h = rw (h.same_books, h.same_size) refl

get_config-same : (s s' : EngineSlab) (m : ℕ) → SameBooks s s' → get_config m s' ≡ get_config m s
unfolding get_config
get_config-same s s' m h = rw (h.same_configs, h.same_size) refl

module _ (s s' : EngineSlab) (config : MarketConfig) (market : ℕ) (same : SameBooks s s') where
  IsExecutable-same :
      (l : Leg) (a : Allocation)
      → IsExecutable s config market l a
      → IsExecutable s' config market l a
  IsExecutable-same l a x = record {
    book = x.book;
    held = get_book-same s s' market l.outcome l.venue same ∙ x.held;
    level = x.level;
    index = x.index;
    live = x.live;
    quoted = x.quoted;
    capacity = x.capacity;
    fee = x.fee;
    not_idle = x.not_idle;
    survives = x.survives;
    increment = x.increment;
    stepped = x.stepped;
    whole = x.whole;
    pays = x.pays;
  }

  Aligned-same :
      (ls : List Leg) (as_ : List Allocation)
      → Aligned (IsExecutable s config market) ls as_
      → Aligned (IsExecutable s' config market) ls as_
  Aligned-same [] [] h = tt
  Aligned-same [] (a ∷ as_) h = h
  Aligned-same (l ∷ ls) [] h = h
  Aligned-same (l ∷ ls) (a ∷ as_) (x, h) = (IsExecutable-same l a x, Aligned-same ls as_ h)

  IsSound-same :
      (signal : Signal) (plan : List Leg)
      → IsSound s config market signal plan
      → IsSound s' config market signal plan
  IsSound-same signal plan x = record {
    gains = x.gains;
    summed = x.summed;
    funded = x.funded;
    covered = x.covered;
    executable = Aligned-same plan (allocations signal) x.executable;
  }

IsRunning-IsPriced : (s : EngineSlab) → IsRunning s → IsPriced s
IsRunning-IsPriced s h = go s.books h.books
  where
    go :
        (bs : List OutcomeBook)
        → All IsBook bs
        → All (λ book. All (λ level. IsProb level.price) book.levels) bs
    go [] h = tt
    go (b ∷ bs) (h, hs) = (h.1, go bs hs)

config_budget :
    (s : EngineSlab) (m : ℕ) (config : MarketConfig)
    → IsRunning s
    → get_config m s ≡ some config
    → config.budget ≤ℤ pos i64_max
unfolding get_config
config_budget s m config h e = elim (Bool-cases (ltb m s.max_markets)) [
  | inr out ↦ cc (rw (out, get_config) at e)
  | inl in_range ↦
      let e' : some (get_or s.configs m default_market) ≡ some config =
        rw (in_range, get_config) at e in
      let q : get_or s.configs m default_market ≡ config = cc in
      rw (← q) (
        All-get_or (λ c. c.budget ≤ℤ pos i64_max) s.configs m default_market h.budgets
          (omega arith))
]

-- What the engine tells with a signal that it emits: the market of the event, a sound signal for that
-- market in the slab as it is now, and the time that the event took; and the market's cooldown let the
-- signal through.
pub record IsEmitted (event : FeedEvent) (t : ℕ) (g g' : Engine) (s : SignalEvent) : Type 0 where
  pub of_event : market_id event ≡ some s.market
  pub config : MarketConfig
  pub registered : get_config s.market g'.slab ≡ some config
  pub active : config.active ≡ true
  pub sound : IsSound g'.slab config s.market s.signal s.plan
  pub admitted : emit_admitted s.market t g.slab ≡ true
  pub noted : g'.slab ≡ note_emit s.market t (apply_event event g.slab)
  pub timed :
      (s.ingest_timestamp_ns ≡ timestamp_ns event)
      × (s.signal_timestamp_ns ≡ t)
      × (s.latency_ns ≡ t - timestamp_ns event)

-- The end of `process_event`, on an engine whose slab is running.
record Ended (m ingest t : ℕ) (g : Engine) (r : Option SignalEvent × Engine) : Type 0 where
  running : IsRunning r.1.slab
  silent : r.0 ≡ none → r.1 ≡ g
  config :
      (s : SignalEvent)
      → r.0 ≡ some s
      → (config : MarketConfig) × (get_config m r.1.slab ≡ some config)
        × (config.active ≡ true)
        × IsSound r.1.slab config m s.signal s.plan
  told :
      (s : SignalEvent)
      → r.0 ≡ some s
      → (s.market ≡ m)
        × (s.ingest_timestamp_ns ≡ ingest)
        × (s.signal_timestamp_ns ≡ t)
        × (s.latency_ns ≡ t - ingest)
  noted :
      (s : SignalEvent)
      → r.0 ≡ some s
      → (emit_admitted m t g.slab ≡ true) × (r.1.slab ≡ note_emit m t g.slab)

quiet : (m ingest t : ℕ) (g : Engine) → IsRunning g.slab → Ended m ingest t g (none, g)
quiet m ingest t g h = record {
  running = h;
  silent = λ e. refl;
  config = λ s e. cc;
  told = λ s e. cc;
  noted = λ s e. cc;
}

evaluation-cases :
    (r : Checked EngineError (Option (Signal × List Leg)))
    → ((e : EngineError) × (r ≡ rejected e))
      ⊎ (r ≡ accepted none)
      ⊎ ((s : Signal) × (plan : List Leg) × (r ≡ accepted (some (s, plan))))
evaluation-cases (rejected e) = inl (e, refl)
evaluation-cases (accepted none) = inr (inl refl)
evaluation-cases (accepted (some (s, plan))) = inr (inr (s, plan, refl))

evaluate_event-Ended :
    (m ingest t : ℕ) (g : Engine)
    → IsRunning g.slab
    → Ended m ingest t g (evaluate_event m ingest t g)
unfolding evaluate_event
evaluate_event-Ended m ingest t g h = elim (Bool-cases (emit_admitted m t g.slab)) [
  | inr held ↦ rw (held, evaluate_event) (quiet m ingest t g h)
  | inl admitted ↦ elim (evaluation-cases (evaluate_market g.slab m)) [
    | inl (e, bad) ↦ rw (admitted, evaluate_event, bad) (quiet m ingest t g h)
    | inr rest ↦ elim rest [
      | inl none_ ↦ rw (admitted, evaluate_event, none_) (quiet m ingest t g h)
      | inr (signal, plan, found) ↦
          let ev = evaluate_market-Evaluated g.slab m signal plan found in
          let small = config_budget g.slab m ev.config h ev.registered in
          let sound =
            evaluate_market-IsSound g.slab m ev.config signal plan (IsRunning-IsPriced g.slab h)
              ev.registered small found in
          let same = note_emit-SameBooks m t g.slab in
          rw (admitted, evaluate_event, found)
            (record {
              running = note_emit-IsRunning m t g.slab h;
              silent = λ e. cc;
              config = λ s e.
                  let q : signal ≡ s.signal = cc in
                  let p : plan ≡ s.plan = cc in
                  (
                    ev.config,
                    get_config-same g.slab (note_emit m t g.slab) m same ∙ ev.registered,
                    ev.active,
                    rw (← q, ← p)
                        (IsSound-same g.slab (note_emit m t g.slab) ev.config m same signal plan
                          sound),
                  );
              told = λ s e. (cc, cc, cc, cc);
              noted = λ s e. (admitted, refl);
            })
    ]
  ]
]

evaluated_market_lem : (e : FeedEvent) (m : ℕ) → evaluated_market e ≡ some m → market_id e ≡ some m
unfolding evaluated_market market_id
evaluated_market_lem (snapshot v k o seq t levels num) m h = h
evaluated_market_lem (delta v k o seq t l d) m h = h
evaluated_market_lem (trade v k o seq t p a side) m h = cc
evaluated_market_lem (heartbeat v t) m h = cc
evaluated_market_lem (halt v k (some o) t r) m h = h
evaluated_market_lem (halt v k none t r) m h = h

emit_admitted-Updated :
    (m t : ℕ) (s s' : EngineSlab) → Updated s s' → emit_admitted m t s' ≡ emit_admitted m t s
unfolding emit_admitted
emit_admitted-Updated m t s s' u = rw (u.same_configs, u.same_emits, u.same_size) refl

-- An event that the types of the source can hold leaves a running engine running, and a signal that the
-- engine emits for it is sound.
pub record Processed (event : FeedEvent) (t : ℕ) (g : Engine) (r : Option SignalEvent × Engine)
    : Type 0 where
  pub running : IsRunning r.1.slab
  pub emitted : (s : SignalEvent) → r.0 ≡ some s → IsEmitted event t g r.1 s

pub process_event-Processed :
    (e : FeedEvent) (t : ℕ) (g : Engine)
    → IsEvent e
    → IsRunning g.slab
    → Processed e t g (process_event e t g)
unfolding process_event take_event
process_event-Processed e t g valid h =
    let u = apply_event-Updated e g.slab valid h in
    let g' = take_event e t g in
    elim (Option-cases (evaluated_market e)) [
      | inl none_ ↦ rw (none_, process_event) (record { running = u.running; emitted = λ s q. cc })
      | inr (m, some_) ↦
          let x = evaluate_event-Ended m (timestamp_ns e) t g' u.running in
          rw (some_, process_event)
            (record {
              running = x.running;
              emitted = λ s q.
                  let (config, registered, active, sound) = x.config s q in
                  let (market, ingest, at, latency) = x.told s q in
                  let (admitted, noted) = x.noted s q in
                  record {
                    of_event = evaluated_market_lem e m some_ ∙ ap some (sym market);
                    config = config;
                    registered = rw market registered;
                    active = active;
                    sound = rw market sound;
                    admitted = rw market (
                        sym (emit_admitted-Updated m t g.slab (apply_event e g.slab) u) ∙ admitted);
                    noted = rw market noted;
                    timed = (ingest, at, latency);
                  };
            })
    ]
