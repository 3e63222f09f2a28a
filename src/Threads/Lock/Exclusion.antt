-- ===== src/Threads/Lock/Exclusion.antt =====
-- Mutual exclusion, and that no sleeping thread is forgotten.
use cs270hw.Base.{
  ℕ, ◌≡◌, ◌≢◌, ◌∙◌, ap, refl, sym, ◌⊎◌, inl, inr, Bool, true, false, ◌||◌, List, [], ◌∷◌, ◌++◌,
  ◌==◌, ==_iff, arith, Bool-cases,
}
use cs270hw.Threads.Lock.{
  System, Mode, outside, trying, sleeping, inside, put, after_acquire, after_release, Step, asks,
  tests, leaves, strays, Reach, here, after, start,
}

-- whether a thread is in the queue
abbrev waits : ℕ → List ℕ → Bool
waits t [] = false
waits t (u ∷ us) = t == u || waits t us

waits-append : (t : ℕ) (us : List ℕ) (v : ℕ) → waits t (us ++ (v ∷ [])) ≡ (waits t us || t == v)
waits-append t [] v = ground arith
waits-append t (u ∷ us) v = ground (arith, waits-append t us v)

pub record Safe (s : System) : Type 0 where
  owner : (t : ℕ) → s.mode t ≡ inside → (s.lock.lock_taken ≡ true) × (s.lock.current_th ≡ t)
  held : s.lock.lock_taken ≡ true → s.mode s.lock.current_th ≡ inside
  queued : (t : ℕ) → s.mode t ≡ sleeping → waits t s.lock.queue ≡ true
  alert :
      (t : ℕ)
      → waits t s.lock.queue ≡ true
      → (s.lock.lock_taken ≡ true) ⊎ ((u : ℕ) × (s.mode u ≡ trying))

start-Safe : (noise : ℕ) → Safe (start noise)
start-Safe noise = record {
  owner = λ t h. cc;
  held = λ h. cc;
  queued = λ t h. cc;
  alert = λ t h. cc;
}

put_same : (f : ℕ → Mode) (t : ℕ) (m : Mode) → put f t m t ≡ m
put_same f t m = ground arith

put_other : (f : ℕ → Mode) (t u : ℕ) (m : Mode) → u ≢ t → put f t m u ≡ f u
put_other f t u m h = ground arith

-- A thread that has a mode other than the one that `t` got had it before.
put-inv : (f : ℕ → Mode) (t u : ℕ) (m k : Mode) → put f t m u ≡ k → m ≢ k → (u ≢ t) × (f u ≡ k)
put-inv f t u m k h ne = elim (Bool-cases (u == t)) [
  | inl y ↦ let h1 : m ≡ k = rw y at h in absurd (ne h1)
  | inr n ↦ let h1 : f u ≡ k = rw n at h in ((λ e. ground arith), h1)
]

ask-Safe :
    (s : System) (t : ℕ)
    → Safe s
    → s.mode t ≡ outside
    → Safe (record s { mode = put s.mode t trying })
ask-Safe s t v h = record {
  owner = λ u e. let (ne, e') = put-inv s.mode t u trying inside e (λ q. cc) in v.owner u e';
  held = λ k.
      let was = v.held k in
      put_other s.mode t s.lock.current_th trying (λ q. let g = ap s.mode q in cc) ∙ was;
  queued = λ u e. let (ne, e') = put-inv s.mode t u trying sleeping e (λ q. cc) in v.queued u e';
  alert = λ u e. inr (t, put_same s.mode t trying);
}

-- a system by its parts
abbrev sys : Bool → ℕ → List ℕ → (ℕ → Mode) → System
sys taken current queue mode = record {
  lock = record { lock_taken = taken; current_th = current; queue = queue };
  mode = mode;
}

-- Acquire that finds the lock taken by another thread
sleep-Safe :
    (current : ℕ) (queue : List ℕ) (f : ℕ → Mode) (t : ℕ)
    → Safe (sys true current queue f)
    → f t ≡ trying
    → Safe (sys true current (queue ++ (t ∷ [])) (put f t sleeping))
sleep-Safe current queue f t v h = record {
  owner = λ u e. let (ne, e') = put-inv f t u sleeping inside e (λ q. cc) in v.owner u e';
  held =
      λ k. let was = v.held k in put_other f t current sleeping (λ q. let g = ap f q in cc) ∙ was;
  queued = λ u e. elim (Bool-cases (u == t)) [
    | inl y ↦ ground (arith, waits-append u queue t)
    | inr n ↦
        let e' : f u ≡ sleeping = rw n at e in ground (arith, waits-append u queue t, v.queued u e')
  ];
  alert = λ u e. inl refl;
}

-- Acquire that finds the lock free
take-Safe :
    (current : ℕ) (queue : List ℕ) (f : ℕ → Mode) (t : ℕ)
    → Safe (sys false current queue f)
    → Safe (sys true t queue (put f t inside))
take-Safe current queue f t v = record {
  owner = λ u e. elim (Bool-cases (u == t)) [
    | inl y ↦ (refl, sym ((==_iff u t).0 y))
    | inr n ↦ let e' : f u ≡ inside = rw n at e in let no_one = v.owner u e' in cc
  ];
  held = λ k. put_same f t inside;
  queued = λ u e. let (ne, e') = put-inv f t u inside sleeping e (λ q. cc) in v.queued u e';
  alert = λ u e. inl refl;
}

acquire-Safe :
    (taken : Bool) (current : ℕ) (queue : List ℕ) (f : ℕ → Mode) (t : ℕ)
    → Safe (sys taken current queue f)
    → f t ≡ trying
    → Safe (after_acquire (sys taken current queue f) t)
acquire-Safe false current queue f t v h = elim (Bool-cases (current == t)) [
  | inl y ↦ rw y (take-Safe current queue f t v)
  | inr n ↦ rw n (take-Safe current queue f t v)
]
acquire-Safe true current queue f t v h = elim (Bool-cases (current == t)) [
  | inl y ↦
      let was : f current ≡ inside = v.held refl in let g = ap f ((==_iff current t).0 y) in cc
  | inr n ↦ rw n (sleep-Safe current queue f t v h)
]

-- Release by the thread that the lock names, with and without a thread to wake
unlock-Safe :
    (taken : Bool) (current : ℕ) (f : ℕ → Mode) (t : ℕ)
    → current ≡ t
    → Safe (sys taken current [] f)
    → Safe (sys false current [] (put f t outside))
unlock-Safe taken current f t eq v = record {
  owner = λ u e.
      let (ne, e') = put-inv f t u outside inside e (λ q. cc) in
      absurd (ne (sym ((v.owner u e').1) ∙ eq));
  held = λ k. cc;
  queued = λ u e. let (ne, e') = put-inv f t u outside sleeping e (λ q. cc) in v.queued u e';
  alert = λ u e. cc;
}

hand-Safe :
    (taken : Bool) (current w : ℕ) (ws : List ℕ) (f : ℕ → Mode) (t : ℕ)
    → current ≡ t
    → Safe (sys taken current (w ∷ ws) f)
    → Safe (sys false current ws (put (put f t outside) w trying))
hand-Safe taken current w ws f t eq v = record {
  owner = λ u e.
      let (n1, e1) = put-inv (put f t outside) w u trying inside e (λ q. cc) in
      let (ne, e') = put-inv f t u outside inside e1 (λ q. cc) in
      absurd (ne (sym ((v.owner u e').1) ∙ eq));
  held = λ k. cc;
  queued = λ u e.
      let (n1, e1) = put-inv (put f t outside) w u trying sleeping e (λ q. cc) in
      let (n2, e') = put-inv f t u outside sleeping e1 (λ q. cc) in
      let was = v.queued u e' in ground (arith, n1, was);
  alert = λ u e. inr (w, put_same (put f t outside) w trying);
}

-- Release by another thread changes nothing but that thread.
keep-Safe :
    (taken : Bool) (current : ℕ) (queue : List ℕ) (f : ℕ → Mode) (t : ℕ)
    → current ≢ t
    → f t ≢ trying
    → Safe (sys taken current queue f)
    → Safe (sys taken current queue (put f t outside))
keep-Safe taken current queue f t ne calm v = record {
  owner = λ u e. let (n1, e') = put-inv f t u outside inside e (λ q. cc) in v.owner u e';
  held = λ k. put_other f t current outside ne ∙ v.held k;
  queued = λ u e. let (n1, e') = put-inv f t u outside sleeping e (λ q. cc) in v.queued u e';
  alert = λ u e. elim (v.alert u e) [
    | inl k ↦ inl k
    | inr (x, q) ↦ inr (x, put_other f t x outside (λ p. calm (ap f (sym p) ∙ q)) ∙ q)
  ];
}

release-Safe :
    (taken : Bool) (current : ℕ) (queue : List ℕ) (f : ℕ → Mode) (t : ℕ)
    → f t ≢ trying
    → Safe (sys taken current queue f)
    → Safe (after_release (sys taken current queue f) t)
release-Safe taken current [] f t calm v = elim (Bool-cases (current == t)) [
  | inl y ↦ rw y (unlock-Safe taken current f t ((==_iff current t).0 y) v)
  | inr n ↦ rw n (keep-Safe taken current [] f t (λ e. ground arith) calm v)
]
release-Safe taken current (w ∷ ws) f t calm v = elim (Bool-cases (current == t)) [
  | inl y ↦ rw y (hand-Safe taken current w ws f t ((==_iff current t).0 y) v)
  | inr n ↦ rw n (keep-Safe taken current (w ∷ ws) f t (λ e. ground arith) calm v)
]

Step-Safe : {s s' : System} → Safe s → Step s s' → Safe s'
Step-Safe v (asks s t h) = ask-Safe s t v h
Step-Safe v (tests s t h) =
    acquire-Safe s.lock.lock_taken s.lock.current_th s.lock.queue s.mode t v h
Step-Safe v (leaves s t h) =
    release-Safe s.lock.lock_taken s.lock.current_th s.lock.queue s.mode t
      (λ e. let g = sym h ∙ e in cc) v
Step-Safe v (strays s t h) =
    release-Safe s.lock.lock_taken s.lock.current_th s.lock.queue s.mode t
      (λ e. let g = sym h ∙ e in cc) v

Reach-Safe : (noise : ℕ) {s : System} → Reach noise s → Safe s
Reach-Safe noise here = start-Safe noise
Reach-Safe noise (after s s' r st) = Step-Safe (Reach-Safe noise r) st

-- In every state that threads reach, whatever the lock's `currentTh` held at first and also when
-- threads call Release without the lock, two threads that are inside are the same thread.
pub exclusive :
    (noise : ℕ) (s : System) (t u : ℕ)
    → Reach noise s
    → s.mode t ≡ inside
    → s.mode u ≡ inside
    → t ≡ u
exclusive noise s t u r ht hu =
    let v = Reach-Safe noise r in sym ((v.owner t ht).1) ∙ (v.owner u hu).1

-- In every state that threads reach, when a thread sleeps in the lock's queue, the lock is taken by a
-- thread that is inside, or a thread is about to test the lock.
pub no_lost_wake :
    (noise : ℕ) (s : System) (t : ℕ)
    → Reach noise s
    → s.mode t ≡ sleeping
    → (s.mode s.lock.current_th ≡ inside) ⊎ ((u : ℕ) × (s.mode u ≡ trying))
no_lost_wake noise s t r h =
    let v = Reach-Safe noise r in
    elim (v.alert t (v.queued t h)) [ inl k ↦ inl (v.held k) | inr w ↦ inr w ]
