-- ===== src/Queue/Invariant.antt =====
-- The two tables of the queue hold the same entries, and no URL is in it twice.
use hash_archive.Prelude.{ℕ, Bytes, [], some, ◌≡◌, ◌≢◌, ◌⊎◌, inl, inr, sym, ap, ◌∙◌, subst, arith}
use hash_archive.Error.{kvs_notfound, ok, err, >>=-eq-ok}
use hash_archive.Db.Response.{uri_max}
use hash_archive.Db.Store.{
  Kvs, Key, time_id_queued_url_and_client, queued_url_surt_and_time_id, queued_surt, in_queued_surt,
  Has, IsStore,
}
use hash_archive.Url.Surt.{url_normalize_surt}
use hash_archive.Queue.{
  Added, asserted, already_queued, too_soon, added, may_queue, enqueue, queue_add, queue_remove,
}

abbrev pub fwd : ℕ → ℕ → Bytes → Bytes → Key
fwd time id url client = time_id_queued_url_and_client time id url client

abbrev pub rev : Bytes → ℕ → ℕ → Key
rev surt time id = queued_url_surt_and_time_id surt time id

-- The key that a URL is queued under.
abbrev pub SurtOf : Bytes → Bytes → Type 0
SurtOf url surt = url_normalize_surt (some url) uri_max ≡ ok surt

module _ (kvs : Kvs) where
  open kvs use {Txn, put, del, newest}

  pub record IsQueue (t : Txn) : Type 0 where
    pub backed :
        (surt : Bytes) (time id : ℕ)
        → Has kvs t (queued_url_surt_and_time_id surt time id)
        → (url : Bytes) × (client : Bytes) × Has kvs t
            (time_id_queued_url_and_client time id url client)
          × SurtOf url surt
    pub indexed :
        (time id : ℕ) (url client : Bytes)
        → Has kvs t (time_id_queued_url_and_client time id url client)
        → (surt : Bytes) × SurtOf url surt × Has kvs t (queued_url_surt_and_time_id surt time id)
    pub once :
        (surt : Bytes) (time id time' id' : ℕ)
        → Has kvs t (queued_url_surt_and_time_id surt time id)
        → Has kvs t (queued_url_surt_and_time_id surt time' id')
        → (time ≡ time') × (id ≡ id')
    pub named :
        (time id : ℕ) (url client url' client' : Bytes)
        → Has kvs t (time_id_queued_url_and_client time id url client)
        → Has kvs t (time_id_queued_url_and_client time id url' client')
        → (url ≡ url') × (client ≡ client')

  module _ (store : IsStore kvs) where
    open store use {
      put_has, put_keeps, put_adds, del_drops, del_keeps, del_adds, newest_some, newest_none,
    }

    -- What the two writes of `queue_add` change.
    pub record Wrote (t t' : Txn) (f r : Key) : Type 0 where
      pub has_f : Has kvs t' f
      pub has_r : Has kvs t' r
      pub keeps : (j : Key) → Has kvs t j → Has kvs t' j
      pub adds : (j : Key) → Has kvs t' j → (j ≡ f) ⊎ (j ≡ r) ⊎ Has kvs t j

    two_puts :
        (t t' t'' : Txn) (f r : Key) → put t f [] ≡ ok t' → put t' r [] ≡ ok t'' → Wrote t t'' f r
    two_puts t t' t'' f r ef er = record {
      has_f = put_keeps t' t'' r f [] er (put_has t t' f [] ef);
      has_r = put_has t' t'' r [] er;
      keeps = λ j h. put_keeps t' t'' r j [] er (put_keeps t t' f j [] ef h);
      adds = λ j h. elim (put_adds t' t'' r j [] er h) [
        | inl e ↦ inr (inl e)
        | inr h' ↦ elim (put_adds t t' f j [] ef h') [ inl e ↦ inl e | inr h'' ↦ inr (inr h'') ]
      ];
    }

    moved :
        (t : Txn) {x surt : Bytes} {a i time id : ℕ} (b j : ℕ)
        → rev x a i ≡ rev surt time id
        → Has kvs t (rev x b j)
        → Has kvs t (rev surt b j)
    moved t {x} {surt} b j e h = let es : x ≡ surt = cc in subst (λ y. Has kvs t (rev y b j)) es h

    placed :
        (t : Txn) {a i time id : ℕ} {u c url client : Bytes} (v d : Bytes)
        → fwd a i u c ≡ fwd time id url client
        → Has kvs t (fwd a i v d)
        → Has kvs t (fwd time id v d)
    placed t {a} {i} {time} {id} v d e h =
        let et : a ≡ time = cc in
        let ei : i ≡ id = cc in
        subst (λ y. Has kvs t (fwd time y v d)) ei (subst (λ y. Has kvs t (fwd y i v d)) et h)

    Wrote-IsQueue :
        (t t' : Txn) (time id : ℕ) (url client surt : Bytes)
        → IsQueue t
        → ((u c : Bytes) → ¬ Has kvs t (fwd time id u c))
        → ((time' id' : ℕ) → ¬ Has kvs t (rev surt time' id'))
        → SurtOf url surt
        → Wrote t t' (fwd time id url client) (rev surt time id)
        → IsQueue t'
    Wrote-IsQueue t t' time id url client surt q fresh absent s w = record {
      backed = λ x time' id' h. elim (w.adds _ h) [
        | inl e ↦ cc
        | inr (inl e) ↦
            let es : x ≡ surt = cc in
            let et : time' ≡ time = cc in
            let ei : id' ≡ id = cc in rw (es, et, ei) (url, client, w.has_f, s)
        | inr (inr h') ↦ let (u, c, hf, hs) = q.backed x time' id' h' in (u, c, w.keeps _ hf, hs)
      ];
      indexed = λ time' id' u c h. elim (w.adds _ h) [
        | inl e ↦
            let eu : u ≡ url = cc in
            let et : time' ≡ time = cc in
            let ei : id' ≡ id = cc in rw (eu, et, ei) (surt, s, w.has_r)
        | inr (inl e) ↦ cc
        | inr (inr h') ↦ let (x, hs, hr) = q.indexed time' id' u c h' in (x, hs, w.keeps _ hr)
      ];
      once = λ x a i b j h k. elim (w.adds _ h) [
        | inl e ↦ cc
        | inr (inl e) ↦ elim (w.adds _ k) [
          | inl e' ↦ cc
          | inr (inl e') ↦ (cc, cc)
          | inr (inr k') ↦ absurd (absent b j (moved t b j e k'))
        ]
        | inr (inr h') ↦ elim (w.adds _ k) [
          | inl e' ↦ cc
          | inr (inl e') ↦ absurd (absent a i (moved t a i e' h'))
          | inr (inr k') ↦ q.once x a i b j h' k'
        ]
      ];
      named = λ a i u c u' c' h k. elim (w.adds _ h) [
        | inl e ↦ elim (w.adds _ k) [
          | inl e' ↦ (cc, cc)
          | inr (inl e') ↦ cc
          | inr (inr k') ↦ absurd (fresh u' c' (placed t u' c' e k'))
        ]
        | inr (inl e) ↦ cc
        | inr (inr h') ↦ elim (w.adds _ k) [
          | inl e' ↦ absurd (fresh u c (placed t u c e' h'))
          | inr (inl e') ↦ cc
          | inr (inr k') ↦ q.named a i u c u' c' h' k'
        ]
      ];
    }

    -- What `may_queue` found when it lets a URL in.
    may_queue-added :
        (t t' : Txn) (time : ℕ) (surt : Bytes)
        → may_queue kvs t time surt ≡ ok (added t')
        → (t ≡ t') × (newest t (queued_surt surt) ≡ err kvs_notfound)
    unfolding may_queue
    may_queue-added t t' time surt e = ground arith

    pub enqueue-Wrote :
        (t t' : Txn) (time id : ℕ) (url client surt : Bytes) (verdict : Added Txn)
        → may_queue kvs t time surt ≡ ok verdict
        → enqueue kvs verdict time id url client surt ≡ ok (added t')
        → ((time' id' : ℕ) → ¬ Has kvs t (rev surt time' id'))
          × Wrote t t' (fwd time id url client) (rev surt time id)
    unfolding enqueue
    enqueue-Wrote t t' time id url client surt already_queued e f = cc
    enqueue-Wrote t t' time id url client surt too_soon e f = cc
    enqueue-Wrote t t' time id url client surt (added t0) e f =
        let (same, none_there) = may_queue-added t t0 time surt e in
        let (t1, e1, g) = >>=-eq-ok (put t0 (fwd time id url client) []) _ f in
        let (t2, e2, g') = >>=-eq-ok (put t1 (rev surt time id) []) _ g in
        let last : t2 ≡ t' = cc in
        (
          λ a i.
              newest_none t (queued_surt surt) (rev surt a i) none_there (in_queued_surt surt a i),
          two_puts t t1 t' (fwd time id url client) (rev surt time id) (rw same e1)
              (subst (λ x. put t1 (rev surt time id) [] ≡ ok x) last e2),
        )

    -- A URL that `queue_add` adds is put in both tables, and the queue stays one, if no entry of it
    -- had the time and the id yet.
    pub queue_add-IsQueue :
        (t t' : Txn) (time id : ℕ) (url client : Bytes)
        → IsQueue t
        → ((u c : Bytes) → ¬ Has kvs t (time_id_queued_url_and_client time id u c))
        → queue_add kvs t time id url client ≡ ok (added t')
        → IsQueue t' × Has kvs t' (time_id_queued_url_and_client time id url client)
    unfolding queue_add
    queue_add-IsQueue t t' time id url client q fresh e =
        let (_, et, e0) = >>=-eq-ok (asserted time) _ e in
        let (surt, es, f) = >>=-eq-ok (url_normalize_surt (some url) uri_max) _ e0 in
        let (verdict, ev, g) = >>=-eq-ok (may_queue kvs t time surt) _ f in
        let w = enqueue-Wrote t t' time id url client surt verdict ev g in
        (Wrote-IsQueue t t' time id url client surt q fresh w.0 es w.1, w.1.has_f)

    -- What the two deletions of `queue_remove` leave.
    pub record Dropped (t t' : Txn) (f r : Key) : Type 0 where
      pub lacks_f : ¬ Has kvs t' f
      pub lacks_r : ¬ Has kvs t' r
      pub leaves : (j : Key) → j ≢ f → j ≢ r → Has kvs t j → Has kvs t' j
      pub had : (j : Key) → Has kvs t' j → Has kvs t j

    pub two_dels :
        (t t' t'' : Txn) (f r : Key) → del t f ≡ ok t' → del t' r ≡ ok t'' → Dropped t t'' f r
    two_dels t t' t'' f r ef er = record {
      lacks_f = λ h. del_drops t t' f ef (del_adds t' t'' r f er h);
      lacks_r = del_drops t' t'' r er;
      leaves = λ j nf nr h. del_keeps t' t'' r j er nr (del_keeps t t' f j ef nf h);
      had = λ j h. del_adds t t' f j ef (del_adds t' t'' r j er h);
    }

    Dropped-IsQueue :
        (t t' : Txn) (time id : ℕ) (url client surt : Bytes)
        → IsQueue t
        → Has kvs t (fwd time id url client)
        → SurtOf url surt
        → Dropped t t' (fwd time id url client) (rev surt time id)
        → IsQueue t'
    Dropped-IsQueue t t' time id url client surt q there s d = record {
      backed = λ x a i h.
          let (u, c, hf, hs) = q.backed x a i (d.had _ h) in
          let other : fwd a i u c ≢ fwd time id url client =
            λ e. d.lacks_r (remake x a i u c h hs e) in
          (u, c, d.leaves _ other (λ e. cc) hf, hs);
      indexed = λ a i u c h.
          let (x, hs, hr) = q.indexed a i u c (d.had _ h) in
          let other : rev x a i ≢ rev surt time id = λ e. d.lacks_f (refind x a i u c h e) in
          (x, hs, d.leaves _ (λ e. cc) other hr);
      once = λ x a i b j h k. q.once x a i b j (d.had _ h) (d.had _ k);
      named = λ a i u c u' c' h k. q.named a i u c u' c' (d.had _ h) (d.had _ k);
    }
      where
        remake :
            (x : Bytes) (a i : ℕ) (u c : Bytes)
            → Has kvs t' (rev x a i)
            → SurtOf u x
            → fwd a i u c ≡ fwd time id url client
            → Has kvs t' (rev surt time id)
        remake x a i u c h hs e =
            let eu : u ≡ url = cc in
            let et : a ≡ time = cc in
            let ei : i ≡ id = cc in
            let ex : ok x ≡ ok surt =
              sym hs ∙ (ap (λ y. url_normalize_surt (some y) uri_max) eu ∙ s) in
            let es : x ≡ surt = cc in rw (← et, ← ei, ← es) h

        refind :
            (x : Bytes) (a i : ℕ) (u c : Bytes)
            → Has kvs t' (fwd a i u c)
            → rev x a i ≡ rev surt time id
            → Has kvs t' (fwd time id url client)
        refind x a i u c h e =
            let et : a ≡ time = cc in
            let ei : i ≡ id = cc in
            let h' : Has kvs t' (fwd time id u c) = rw (← et, ← ei) h in
            let same = q.named time id u c url client (d.had _ h') there in
            let eu : url ≡ u = sym same.0 in let ec : client ≡ c = sym same.1 in rw (eu, ec) h'

    -- An entry of the queue that `queue_remove` removes is in neither table any more, and the queue
    -- stays one.
    pub queue_remove-IsQueue :
        (t t' : Txn) (time id : ℕ) (url client surt : Bytes)
        → IsQueue t
        → Has kvs t (time_id_queued_url_and_client time id url client)
        → SurtOf url surt
        → queue_remove kvs t time id url client ≡ ok t'
        → IsQueue t'
          × (¬ Has kvs t' (time_id_queued_url_and_client time id url client))
          × (¬ Has kvs t' (queued_url_surt_and_time_id surt time id))
    unfolding queue_remove
    queue_remove-IsQueue t t' time id url client surt q there s e =
        let (_, et, ei) = >>=-eq-ok (asserted time) _ e in
        let (_, en, es) = >>=-eq-ok (asserted id) _ ei in
        let e' = rw s at es in
        let (t1, e1, g) = >>=-eq-ok (del t (fwd time id url client)) _ e' in
        let d = two_dels t t1 t' (fwd time id url client) (rev surt time id) e1 g in
        (Dropped-IsQueue t t' time id url client surt q there s d, d.lacks_f, d.lacks_r)
