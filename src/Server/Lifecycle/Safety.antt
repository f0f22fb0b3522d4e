-- ===== src/Server/Lifecycle/Safety.antt =====
-- The channels are closed once, and the prober is gone behind a `Shutdown`.
use infer_flow.Prelude.{ℕ, ◌≤◌, ◌≡◌, ◌≢◌, ◌⊎◌, refl, ap, ◌∙◌, inl, inr, List, arith}
use infer_flow.Router.Heap.{Heap}
use infer_flow.Server.Lifecycle.{
  Prober, probing, waiting, gone, Once, unused, running, finished, Life, started, Step, checks,
  rests, ticks, leaves, closes, passes, Run, here, next,
}

-- How often `stopCh` has been closed, by the state of `stopOnce`, and `probeDone`, by the prober's.
abbrev pub stops_of : Once → ℕ
stops_of unused = 0
stops_of running = 1
stops_of finished = 1

abbrev pub dones_of : Prober → ℕ
dones_of (probing bs) = 0
dones_of waiting = 0
dones_of gone = 1

pub record IsOrderly (l : Life) : Type 0 where
  pub stops : l.stop_closes ≡ stops_of l.once
  pub dones : l.done_closes ≡ dones_of l.prober
  -- Behind `stopOnce` the prober is gone.
  pub past : (l.once ≢ finished) ⊎ (l.prober ≡ gone)

pub gone_of_done : (p : Prober) → 1 ≤ dones_of p → p ≡ gone
gone_of_done (probing bs) h = absurd (omega arith)
gone_of_done waiting h = absurd (omega arith)
gone_of_done gone h = refl

not_past : (l : Life) → IsOrderly l → l.prober ≢ gone → l.once ≢ finished
not_past l o there = elim o.past [ inl n ↦ n | inr g ↦ absurd (there g) ]

module _ {bs : List ℕ} where
  pub Step-IsOrderly : {l m : Life} → Step bs l m → IsOrderly l → IsOrderly m
  Step-IsOrderly {l} (checks b rest answer e) o = record {
    stops = o.stops;
    dones = ground (arith, o.dones);
    past = inl (not_past l o (λ g. cc));
  }
  Step-IsOrderly {l} (rests e) o = record {
    stops = o.stops;
    dones = ground (arith, o.dones);
    past = inl (not_past l o (λ g. cc));
  }
  Step-IsOrderly {l} (ticks e) o = record {
    stops = o.stops;
    dones = ground (arith, o.dones);
    past = inl (not_past l o (λ g. cc));
  }
  Step-IsOrderly {l} (leaves e stopped) o = record {
    stops = o.stops;
    dones = ground (arith, o.dones);
    past = inr refl;
  }
  Step-IsOrderly {l} (closes e) o = record {
    stops = ground (arith, o.stops);
    dones = o.dones;
    past = inl (λ e. cc);
  }
  Step-IsOrderly {l} (passes e done) o = record {
    stops = ground (arith, o.stops);
    dones = o.dones;
    past = inr (gone_of_done l.prober (omega (arith, o.dones)));
  }

  pub Run-IsOrderly : {l m : Life} {n : ℕ} → Run bs l n m → IsOrderly l → IsOrderly m
  Run-IsOrderly here o = o
  Run-IsOrderly (next r s) o = Step-IsOrderly s (Run-IsOrderly r o)

pub started-IsOrderly : (bs : List ℕ) (h : Heap) → IsOrderly (started bs h)
started-IsOrderly bs h = record { stops = refl; dones = refl; past = inl (λ e. cc) }

pub finished-gone : (l : Life) → IsOrderly l → l.once ≡ finished → l.prober ≡ gone
finished-gone l o f = elim o.past [ inl n ↦ absurd (n f) | inr g ↦ g ]

stops_of_le : (o : Once) → stops_of o ≤ 1
stops_of_le unused = omega arith
stops_of_le running = omega arith
stops_of_le finished = omega arith

dones_of_le : (p : Prober) → dones_of p ≤ 1
dones_of_le (probing bs) = omega arith
dones_of_le waiting = omega arith
dones_of_le gone = omega arith

-- Behind a `Shutdown` no step is left.
pub no-Step : {bs : List ℕ} {l m : Life} → l.once ≡ finished → l.prober ≡ gone → Step bs l m → ⊥
no-Step f g (checks b rest answer e) = cc
no-Step f g (rests e) = cc
no-Step f g (ticks e) = cc
no-Step f g (leaves e stopped) = cc
no-Step f g (closes e) = cc
no-Step f g (passes e done) = cc

Run-still :
    {bs : List ℕ} {l m : Life} {n : ℕ} → l.once ≡ finished → l.prober ≡ gone → Run bs l n m → m ≡ l
Run-still f g here = refl
Run-still {l} f g (next r s) =
    let same = Run-still f g r in
    absurd (no-Step (ap (λ k. k.once) same ∙ f) (ap (λ k. k.prober) same ∙ g) s)

-- In every run from the start, with any number of calls of `Shutdown`, `stopCh` and `probeDone` are
-- closed at most once.
pub Run-closes :
    (bs : List ℕ) (h : Heap) {n : ℕ} {l : Life}
    → Run bs (started bs h) n l
    → (l.stop_closes ≤ 1) × (l.done_closes ≤ 1)
Run-closes bs h {l} r =
    let o = Run-IsOrderly r (started-IsOrderly bs h) in
    (omega (arith, o.stops, stops_of_le l.once), omega (arith, o.dones, dones_of_le l.prober))

-- Once a `Shutdown` is past `stopOnce`, the prober is gone and nothing moves any more: no health check
-- marks a backend behind it.
pub Run-Shutdown :
    (bs : List ℕ) (h : Heap) {n k : ℕ} {l m : Life}
    → Run bs (started bs h) n l
    → l.once ≡ finished
    → Run bs l k m
    → (l.prober ≡ gone) × (m ≡ l)
Run-Shutdown bs h {l} r f later =
    let o = Run-IsOrderly r (started-IsOrderly bs h) in
    let g = finished-gone l o f in (g, Run-still f g later)
