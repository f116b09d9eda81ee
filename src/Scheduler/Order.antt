-- ===== src/Scheduler/Order.antt =====
-- Whatever the interleaving of puts and rounds, the requests are served one after another, in order.
use hivedb.Base.{
  ℕ, ◌≡◌, refl, sym, ◌∙◌, ap, Bool, true, false, Option, none, some, List, [], ◌∷◌, ◌++◌,
  if◌then◌else◌, Option-cases, inl, inr, arith,
}
use hivedb.Pool.Monad.{DiskManager}
use hivedb.Scheduler.{DiskRequest, Reply, wrote, read_in, DiskScheduler, handle, Step, Steps}
use mathlib.Core.List.{append-nil, append_assoc}

module _ {Page : Type 0} where
  abbrev pub is_shutdown : DiskRequest Page → Bool
  is_shutdown DiskRequest.shutdown = true
  is_shutdown _ = false

  abbrev pub NoShutdown : List (DiskRequest Page) → Type 0
  NoShutdown [] = Unit {0}
  NoShutdown (r ∷ rs) = (is_shutdown r ≡ false) × NoShutdown rs

  NoShutdown-snoc :
      (hs : List (DiskRequest Page)) (r : DiskRequest Page)
      → NoShutdown hs
      → is_shutdown r ≡ false
      → NoShutdown (hs ++ r ∷ [])
  NoShutdown-snoc [] r n e = (e, tt)
  NoShutdown-snoc (h ∷ hs) r n e = (n.0, NoShutdown-snoc hs r n.1 e)

module _ {Disk Page : Type 0} (disk : DiskManager Disk Page) where
  abbrev pub serve_one :
      Disk → List (Reply Page) → DiskRequest Page → Option (Disk × List (Reply Page))
  serve_one d acc (DiskRequest.read id) = elim (disk.read_page d id) [
    | none ↦ none
    | some (d', page) ↦ some (d', acc ++ read_in page ∷ [])
  ]
  serve_one d acc (DiskRequest.write id page) = elim (disk.write_page d id page) [
    | none ↦ none
    | some d' ↦ some (d', acc ++ wrote ∷ [])
  ]
  serve_one d acc DiskRequest.shutdown = some (d, acc)

  -- The requests served in order, up to a shutdown: the disk, and the replies behind those so far.
  pub serve_all :
      Disk → List (Reply Page) → List (DiskRequest Page) → Option (Disk × List (Reply Page))
  serve_all d acc [] = some (d, acc)
  serve_all d acc (r ∷ rs) =
      if is_shutdown r
      then some (d, acc)
      else (elim (serve_one d acc r) [ none ↦ none | some (d', acc') ↦ serve_all d' acc' rs ])

  serve_all-snoc :
      (hs : List (DiskRequest Page)) (r : DiskRequest Page) (d d' : Disk)
      (acc acc' : List (Reply Page))
      → NoShutdown hs
      → serve_all d acc hs ≡ some (d', acc')
      → serve_all d acc (hs ++ r ∷ []) ≡ serve_all d' acc' (r ∷ [])
  unfolding serve_all
  serve_all-snoc [] r d d' acc acc' n e =
      ap
        (λ (o : Option (Disk × List (Reply Page))). elim o [
          | none ↦ none
          | some (x, y) ↦ serve_all x y (r ∷ [])
        ])
        e
  serve_all-snoc (h ∷ hs) r d d' acc acc' n e = elim (Option-cases (serve_one d acc h)) [
    | inl stuck ↦ absurd (ground (arith, n.0, stuck, e))
    | inr (x, ran) ↦
        simp (n.0, ran) (serve_all-snoc hs r x.0 d' x.1 acc' n.1 (simp (n.0, ran) at e))
  ]

  some_injective : {A : Type 0} (x y : A) → some x ≡ some y → x ≡ y
  some_injective x y e = ground arith

  -- A round on a request does what `serve_all` does of it.
  abbrev pub Serves : DiskScheduler Disk Page → DiskRequest Page → DiskScheduler Disk Page → Type 0
  Serves s req t =
      (serve_all s.manager s.replies (req ∷ []) ≡ some (t.manager, t.replies))
      × (t.requests_queue ≡ s.requests_queue)
      × (t.is_running ≡ true → is_shutdown req ≡ false)

  serve_read :
      (d d' : Disk) (acc : List (Reply Page)) (id : ℕ) (page : Page)
      → disk.read_page d id ≡ some (d', page)
      → serve_all d acc (DiskRequest.read id ∷ []) ≡ some (d', acc ++ read_in page ∷ [])
  unfolding serve_all
  serve_read d d' acc id page e = ground arith

  handle_read :
      (s : DiskScheduler Disk Page) (id : ℕ) (page : Page) (d : Disk)
      → disk.read_page s.manager id ≡ some (d, page)
      → handle disk s (DiskRequest.read id)
        ≡ some (record s { manager = d; replies = s.replies ++ read_in page ∷ [] })
  unfolding handle
  handle_read s id page d e = ground arith

  handle_read_stuck :
      (s : DiskScheduler Disk Page) (id : ℕ)
      → disk.read_page s.manager id ≡ none
      → handle disk s (DiskRequest.read id) ≡ none
  unfolding handle
  handle_read_stuck s id e = ground arith

  serve_write :
      (d d' : Disk) (acc : List (Reply Page)) (id : ℕ) (page : Page)
      → disk.write_page d id page ≡ some d'
      → serve_all d acc (DiskRequest.write id page ∷ []) ≡ some (d', acc ++ wrote ∷ [])
  unfolding serve_all
  serve_write d d' acc id page e = ground arith

  handle_write :
      (s : DiskScheduler Disk Page) (id : ℕ) (page : Page) (d : Disk)
      → disk.write_page s.manager id page ≡ some d
      → handle disk s (DiskRequest.write id page)
        ≡ some (record s { manager = d; replies = s.replies ++ wrote ∷ [] })
  unfolding handle
  handle_write s id page d e = ground arith

  handle_write_stuck :
      (s : DiskScheduler Disk Page) (id : ℕ) (page : Page)
      → disk.write_page s.manager id page ≡ none
      → handle disk s (DiskRequest.write id page) ≡ none
  unfolding handle
  handle_write_stuck s id page e = ground arith

  handle-Serves :
      (s t : DiskScheduler Disk Page) (req : DiskRequest Page)
      → handle disk s req ≡ some t
      → Serves s req t
  unfolding handle serve_all
  handle-Serves s t (DiskRequest.read id) e = elim (Option-cases (disk.read_page s.manager id)) [
    | inl stuck ↦ absurd (ground (arith, handle_read_stuck s id stuck, e))
    | inr (x, ran) ↦
        let same = some_injective _ t (sym (handle_read s id x.1 x.0 ran) ∙ e) in
        (
          serve_read s.manager x.0 s.replies id x.1 ran
              ∙ ap (λ (u : DiskScheduler Disk Page). some (u.manager, u.replies)) same,
          sym (ap (λ (u : DiskScheduler Disk Page). u.requests_queue) same),
          λ h. refl,
        )
  ]
  handle-Serves s t (DiskRequest.write id page) e =
      elim (Option-cases (disk.write_page s.manager id page)) [
        | inl stuck ↦ absurd (ground (arith, handle_write_stuck s id page stuck, e))
        | inr (x, ran) ↦
            let same = some_injective _ t (sym (handle_write s id page x ran) ∙ e) in
            (
              serve_write s.manager x s.replies id page ran
                  ∙ ap (λ (u : DiskScheduler Disk Page). some (u.manager, u.replies)) same,
              sym (ap (λ (u : DiskScheduler Disk Page). u.requests_queue) same),
              λ h. refl,
            )
      ]
  handle-Serves s t DiskRequest.shutdown e =
      let same = some_injective _ t e in
      (
        ap (λ (u : DiskScheduler Disk Page). some (u.manager, u.replies)) same,
        sym (ap (λ (u : DiskScheduler Disk Page). u.requests_queue) same),
        λ h. absurd (ground (arith, ap (λ (u : DiskScheduler Disk Page). u.is_running) same, h)),
      )

  -- The requests put so far are those handled and those that wait, and those handled were served in
  -- the order in which they were put.
  pub record Serial (first : DiskScheduler Disk Page) (ps : List (DiskRequest Page))
      (s : DiskScheduler Disk Page) : Type 0 where
    pub handled : List (DiskRequest Page)
    pub split : ps ≡ handled ++ s.requests_queue
    pub served : serve_all first.manager first.replies handled ≡ some (s.manager, s.replies)
    pub no_shutdown : s.is_running ≡ true → NoShutdown handled

  Step-Serial :
      (first s t : DiskScheduler Disk Page) (ps qs : List (DiskRequest Page))
      → Serial first ps s
      → Step disk s qs t
      → Serial first (ps ++ qs) t
  Step-Serial first _ _ ps _ v (Step.puts s req) = record {
    handled = v.handled;
    split = ap (λ rs. rs ++ req ∷ []) v.split ∙ append_assoc v.handled s.requests_queue (req ∷ []);
    served = v.served;
    no_shutdown = v.no_shutdown;
  }
  Step-Serial first _ _ ps _ v (Step.works s t req rest running front ran) =
      let done = handle-Serves (record s { requests_queue = rest }) t req ran in
      record {
        handled = v.handled ++ req ∷ [];
        split =
            append-nil ps
            ∙ v.split
            ∙ ap (λ rs. v.handled ++ rs) (front ∙ ap (λ rs. req ∷ rs) (sym done.1))
            ∙ sym (append_assoc v.handled (req ∷ []) t.requests_queue);
        served =
            serve_all-snoc v.handled req first.manager s.manager first.replies s.replies
              (v.no_shutdown running) v.served
            ∙ done.0;
        no_shutdown = λ h. NoShutdown-snoc v.handled req (v.no_shutdown running) (done.2 h);
      }

  -- From an empty queue and a running worker, every sequence of puts and rounds leads to a state in
  -- which the requests put are those handled followed by those that wait, and the disk and the replies
  -- are what serving the handled requests one after another gives.
  pub Steps-Serial :
      (first s : DiskScheduler Disk Page) (ps : List (DiskRequest Page))
      → first.requests_queue ≡ []
      → Steps disk first ps s
      → Serial first ps s
  unfolding serve_all
  Steps-Serial first _ _ empty Steps.start = record {
    handled = [];
    split = sym empty;
    served = refl;
    no_shutdown = λ h. tt;
  }
  Steps-Serial first _ _ empty (Steps.next ps qs t u before last) =
      Step-Serial first t u ps qs (Steps-Serial first t ps empty before) last
