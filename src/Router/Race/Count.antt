-- ===== src/Router/Race/Count.antt =====
-- What the load counters count.
use infer_flow.Prelude.{
  ℕ, nat_eq, length, ◌+◌, ◌%◌, ◌≡◌, refl, List, [], ◌∷◌, ◌++◌, Option, some, arith, ◌==◌,
  if◌then◌else◌,
}
use infer_flow.Int64.{two64, add64, neg64}
use infer_flow.Router.Heap.{Heap, add_counter, set_healthy}
use infer_flow.Router.Decision.{SelectionInput}
use infer_flow.Router.Loads.{Loads, Choice}
use infer_flow.Router.Race.{
  Phase, looking, holding, stopped, Race, Step, enters, looks, panics, fails, adds, releases, marks,
  Run, here, next,
}

abbrev holds : ℕ → Phase → ℕ
holds c (looking a start i best) = 0
holds c (holding b k a) = if k == c then a else 0
holds c stopped = 0

-- The sum of what the goroutines hold of a counter.
unfoldable pub holders : ℕ → List Phase → ℕ
holders c [] = 0
holders c (t ∷ ts) = holds c t + holders c ts

holders-middle :
    (c : ℕ) (before after : List Phase) (t : Phase)
    → holders c (before ++ t ∷ after) ≡ holds c t + holders c (before ++ after)
unfolding holders
holders-middle c [] after t = refl
holders-middle c (u ∷ us) after t = let ih = holders-middle c us after t in omega arith

-- Each counter is the sum over its holders.
abbrev pub IsCounted : Race → Type 0
IsCounted w = (c : ℕ) → w.heap.counter c ≡ holders c w.threads % two64

-- A goroutine moves on without touching a counter.
moved :
    (w : Race) (before after : List Phase) (t t' : Phase)
    → w.threads ≡ before ++ t ∷ after
    → ((c : ℕ) → holds c t' ≡ holds c t)
    → IsCounted w
    → (c : ℕ) → w.heap.counter c ≡ holders c (before ++ t' ∷ after) % two64
moved w before after t t' at same k c =
    rw (holders-middle c before after t', same c, ← holders-middle c before after t, ← at) (k c)

-- A holder comes, and its counter goes up by its cost.
gained :
    (h : Heap) (before after : List Phase) (a start i b m : ℕ) (best : Option Choice) (c : ℕ)
    → h.counter c ≡ holders c (before ++ looking a start i best ∷ after) % two64
    → (add_counter m a h).counter c ≡ holders c (before ++ holding b m a ∷ after) % two64
unfolding add_counter add64
gained h before after a start i b m best c k = ground (
  arith,
  k,
  holders-middle c before after (looking a start i best),
  holders-middle c before after (holding b m a),
)

-- A holder goes, and its counter goes down by its cost.
lost :
    (h : Heap) (before after : List Phase) (b m a c : ℕ)
    → h.counter c ≡ holders c (before ++ holding b m a ∷ after) % two64
    → (add_counter m (neg64 a) h).counter c ≡ holders c (before ++ stopped ∷ after) % two64
unfolding add_counter add64 neg64
lost h before after b m a c k =
    ground (
      arith,
      k,
      holders-middle c before after (holding b m a),
      holders-middle c before after stopped,
    )

module _ {cost : SelectionInput → ℕ} {s : Loads} where
  Step-IsCounted : {w v : Race} → Step cost s w v → IsCounted w → IsCounted v
  unfolding holders set_healthy
  Step-IsCounted {w} (enters input some_backend) k = λ c. omega (arith, k c)
  Step-IsCounted {w} (looks before after a start i b best at lt found) k =
      moved w before after _ _ at (λ c. refl) k
  Step-IsCounted {w} (panics before after a start i best at lt out) k =
      moved w before after _ _ at (λ c. refl) k
  Step-IsCounted {w} (fails before after a start at) k = moved w before after _ _ at (λ c. refl) k
  Step-IsCounted {w} (adds before after a start m at) k = λ c.
      gained w.heap before after a start (length s.backends) m.backend m.load (some m) c
        (rw (← at) (k c))
  Step-IsCounted {w} (releases before after b m a at) k =
      λ c. lost w.heap before after b m a c (rw (← at) (k c))
  Step-IsCounted {w} (marks b healthy) k = k

  -- In every interleaving of selections and releases, whatever the cost of a request, and of changes of
  -- health between them, from counters at zero on: each load counter is the sum, modulo 2 ^ 64, of the
  -- costs of the requests whose goroutines hold it.
  pub Run-holders :
      (h : Heap) (turn : ℕ) {w : Race}
      → ((c : ℕ) → h.counter c ≡ 0)
      → Run cost s (record { heap = h; next = turn; threads = [] }) w
      → (c : ℕ) → w.heap.counter c ≡ holders c w.threads % two64
  unfolding holders
  Run-holders h turn zeros here = λ c. rw (zeros c) (omega arith)
  Run-holders h turn zeros (next r q) = Step-IsCounted q (Run-holders h turn zeros r)
