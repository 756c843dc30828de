-- ===== src/Loop/Reach.antt =====
-- The states that the daemon can reach from its start, over any events in any order.
use koruza_driver.Prelude.{
  ◌≡◌, List, [], ◌∷◌, ◌++◌, append_assoc, append-nil, some, none, inl, inr, Option-cases,
}
use koruza_driver.Loop.{Machine, World, Output, Ran, output_before, Event, step, run}
use koruza_driver.Loop.Boot.{Surroundings, boot}

-- A run of the loop from one state to another, with what is seen of it from outside.
pub data Steps {B F D S : Type 0} (m : Machine B F D S) (w : World F S)
    : List Output → World F S → Type 0 where
  here : Steps m w [] w
  next :
      {os ps : List Output} {v u : World F S}
      → Steps m w os v
      → (e : Event B) → step m e v ≡ some (u, ps)
      → Steps m w (os ++ ps) u

module _ {B F D S : Type 0} (m : Machine B F D S) where
  -- A state that the daemon reaches from its start, with all that was seen from outside until then.
  pub record IsReached (around : Surroundings) (s : S) (v : World F S) (os : List Output)
      : Type 0 where
    pub first : World F S
    pub early : List Output
    pub late : List Output
    pub booted : boot m around s ≡ some (first, early)
    pub steps : Steps m first late v
    pub all : os ≡ early ++ late

  -- ---- runs

  Steps-append :
      {w v u : World F S} {os ps : List Output}
      → Steps m w os v
      → Steps m v ps u
      → Steps m w (os ++ ps) u
  Steps-append a here = rw append-nil a
  Steps-append {os = os} a (next {os = qs} {ps = ps} b e s) =
      rw (← append_assoc) (next (Steps-append a b) e s)

  abbrev pub RunSteps : World F S → Ran F S → Type 0
  RunSteps w none = Unit
  RunSteps w (some (v, os)) = Steps m w os v

  before-RunSteps :
      {w u : World F S} {ps : List Output}
      → Steps m w ps u
      → (r : Ran F S) → RunSteps u r
      → RunSteps w (output_before ps r)
  before-RunSteps a none h = tt
  before-RunSteps a (some (v, os)) h = Steps-append a h

  -- A run of the events one after the other is a run of the step relation.
  pub run-RunSteps : (events : List (Event B)) (w : World F S) → RunSteps w (run m events w)
  unfolding run
  run-RunSteps [] w = here
  run-RunSteps (e ∷ events) w = elim (Option-cases (step m e w)) [
    | inl i ↦ rw (i, run) tt
    | inr ((u, ps), i) ↦
        rw (i, run) (before-RunSteps (next here e i) (run m events u) (run-RunSteps events u))
  ]
