-- ===== src/Page/Output.antt =====
-- What a connection that takes every call has been sent by a page: the chunks of the body, in order.
use hash_archive.Prelude.{
  Bool, true, false, Bool-cases, inl, inr, bytes_eq, Bytes, List, [], ◌∷◌, ◌++◌, append_assoc,
  append-nil, map, map-append, concat, concat-append, Option, none, some, if◌then◌else◌, ◌≡◌, refl,
  sym, ap, ◌∙◌,
}
use hash_archive.Error.{Result, ok}
use hash_archive.Step.{Reading, go_on, ◌>>=◌, pure}
use hash_archive.Db.Store.{Kvs}
use hash_archive.Api.{Event, chunk}
use hash_archive.Template.{TemplateStep, must_write, write_var, template_write, template_static_var}
use hash_archive.Template.Written.{value_of}
use hash_archive.Page.Site.{Site, World, wr, tells, template_chunk, write_all, html_head, html_end}

-- A text behind another, if there is one.
abbrev pub before_text : Bytes → Option Bytes → Option Bytes
before_text str none = none
before_text str (some rest) = some (str ++ rest)

abbrev pub both_texts : Option Bytes → Option Bytes → Option Bytes
both_texts none later = none
both_texts (some x) later = before_text x later

-- A template with values in place of its variables; `none` if one of them has no value.
abbrev pub with_var : (Bytes → Option Bytes) → Option Bytes → Option Bytes → Option Bytes
with_var value none rest = rest
with_var value (some name) rest = both_texts (value name) rest

unfoldable pub with_values : (Bytes → Option Bytes) → List TemplateStep → Option Bytes
with_values value [] = some []
with_values value (t ∷ ts) =
    let rest = with_values value ts in both_texts (some t.str) (with_var value t.var rest)

pub both_texts-some :
    (a b : Option Bytes) (out : Bytes)
    → both_texts a b ≡ some out
    → (x : Bytes) × (y : Bytes) × (a ≡ some x) × (b ≡ some y) × (x ++ y ≡ out)
both_texts-some none b out e = cc
both_texts-some (some x) none out e = cc
both_texts-some (some x) (some y) out e = (x, y, refl, refl, cc)

module _ (site : Site) (sent : Site.Conn site → List Event) where
  open site use {kvs, Conn, send}

  -- Every call succeeds, and is the next that the other side sees.
  pub record IsConn : Type 0 where
    pub succeeds : (e : Event) (c : Conn) → (send e c).0 ≡ ok tt
    pub adds : (e : Event) (c : Conn) → sent (send e c).1 ≡ sent c ++ e ∷ []

  -- A step that ends with `r` has sent chunks of exactly this text, and left the database as it was.
  abbrev pub Says : Result (Unit {0}) → Reading (World site) (Unit {0}) → Bytes → Type 0
  Says r m text =
      (c : Conn) (t : Kvs.Txn kvs)
      → (c' : Conn) × (bs : List Bytes) × (m (c, t) ≡ (r, (c', t)))
        × (sent c' ≡ sent c ++ map chunk bs)
        × (concat bs ≡ text)

  module _ (law : IsConn) where
    open law use {succeeds, adds}

    pub Says-pure : Says (ok tt) (pure tt) []
    Says-pure c t = (c, [], refl, sym (append-nil (sent c)), refl)

    pub Says-wr : (b : Bytes) → Says (ok tt) (wr site b) b
    Says-wr b c t = (
      (send (chunk b) c).1,
      b ∷ [],
      ap (λ r. (r, ((send (chunk b) c).1, t))) (succeeds (chunk b) c),
      adds (chunk b) c,
      append-nil b,
    )

    after :
        (c c1 c2 : Conn) (cs bs : List Bytes) (a b : Bytes)
        → sent c1 ≡ sent c ++ map chunk cs
        → sent c2 ≡ sent c1 ++ map chunk bs
        → concat cs ≡ a
        → concat bs ≡ b
        → (sent c2 ≡ sent c ++ map chunk (cs ++ bs)) × (concat (cs ++ bs) ≡ a ++ b)
    after c c1 c2 cs bs a b e f g h = (
      f
          ∙ ap (λ s. s ++ map chunk bs) e
          ∙ append_assoc (sent c) (map chunk cs) (map chunk bs)
          ∙ ap (λ s. sent c ++ s) (sym (map-append chunk cs bs)),
      concat-append cs bs ∙ rw (g, h) refl,
    )

    pub Says-then :
        (r : Result (Unit {0})) (m k : Reading (World site) (Unit {0})) (a b : Bytes)
        → Says (ok tt) m a
        → Says r k b
        → Says r (m >>= λ u. k) (a ++ b)
    Says-then r m k a b h more c t =
        let (c1, cs, e, f, g) = h c t in
        let (c2, bs, e', f', g') = more c1 t in
        let (p, q) = after c c1 c2 cs bs a b f f' g g' in
        (c2, cs ++ bs, ap (λ x. go_on x (λ u. k)) e ∙ e', p, q)

    -- Behind the check of `TemplateWrite`.
    pub Says-must :
        (m : Reading (World site) (Unit {0})) (a : Bytes)
        → Says (ok tt) m a
        → Says (ok tt) (λ w. must_write (m w)) a
    Says-must m a h c t = let (c1, cs, e, f, g) = h c t in (c1, cs, ap must_write e, f, g)

    pub Says-static_var :
        (args : List (Bytes × Option Bytes)) (name x : Bytes)
        → value_of args name ≡ some x
        → Says (ok tt) (template_static_var (World site) (wr site) args name) x
    unfolding value_of template_static_var
    Says-static_var [] name x e c t = cc
    Says-static_var ((n, none) ∷ args) name x e c t = elim (Bool-cases (bytes_eq n name)) [
      | inl same ↦
          let f = rw same at e in
          let g : [] ≡ x = cc in rw same (c, [], refl, sym (append-nil (sent c)), g)
      | inr other ↦ let f = rw other at e in rw other (Says-static_var args name x f c t)
    ]
    Says-static_var ((n, some y) ∷ args) name x e c t = elim (Bool-cases (bytes_eq n name)) [
      | inl same ↦
          let f = rw same at e in
          let g : y ≡ x = cc in
          let (c', bs, p, q, r) = Says-wr y c t in rw same (c', bs, p, q, r ∙ g)
      | inr other ↦ let f = rw other at e in rw other (Says-static_var args name x f c t)
    ]

    Says-var :
        (value : Bytes → Option Bytes) (var : Bytes → Reading (World site) (Unit {0}))
        (v rest : Option Bytes) (y : Bytes)
        → ((name x : Bytes) → value name ≡ some x → Says (ok tt) (var name) x)
        → with_var value v rest ≡ some y
        → (a : Bytes) × (b : Bytes) × Says (ok tt) (write_var (World site) (wr site) var v) a
          × (rest ≡ some b)
          × (a ++ b ≡ y)
    Says-var value var none rest y h e = ([], y, Says-pure, e, refl)
    Says-var value var (some name) rest y h e =
        let (a, b, ea, eb, g) = both_texts-some (value name) rest y e in (a, b, h name a ea, eb, g)

    -- A template is written with the values that its variables write.
    pub Says-template :
        (value : Bytes → Option Bytes) (var : Bytes → Reading (World site) (Unit {0}))
        (ts : List TemplateStep) (out : Bytes)
        → ((name x : Bytes) → value name ≡ some x → Says (ok tt) (var name) x)
        → with_values value ts ≡ some out
        → Says (ok tt) (template_write (World site) (wr site) var ts) out
    unfolding with_values template_write
    Says-template value var [] out h e c t =
        let g : [] ≡ out = cc in (c, [], refl, sym (append-nil (sent c)), g)
    Says-template value var (s ∷ ts) out h e c t =
        let (str, y, e0, f0, g0) = both_texts-some (some s.str) _ out e in
        let same : s.str ≡ str = cc in
        let (a, b, m, f1, g1) = Says-var value var s.var _ y h f0 in
        let (c', bs, p, q, r) =
          Says-then (ok tt) (λ w. must_write (wr site s.str w)) _ s.str (a ++ b)
            (Says-must (wr site s.str) s.str (Says-wr s.str))
            (Says-then (ok tt) (λ w. must_write (write_var (World site) (wr site) var s.var w))
              (template_write (World site) (wr site) var ts) a b
              (Says-must (write_var (World site) (wr site) var s.var) a m)
              (Says-template value var ts b h f1))
            c t in
        (c', bs, p, q, r ∙ ap (λ z. s.str ++ z) g1 ∙ ap (λ z. z ++ y) same ∙ g0)

    pub Says-all : (xs : List Bytes) → Says (ok tt) (write_all site xs) (concat xs)
    Says-all [] = Says-pure
    Says-all (x ∷ xs) =
        Says-then (ok tt) (wr site x) (write_all site xs) x (concat xs) (Says-wr x) (Says-all xs)

    pub tells_lem :
        (es : List Event) (c : Conn) (t : Kvs.Txn kvs)
        → (c' : Conn) × (tells site es (c, t) ≡ (ok tt, (c', t))) × (sent c' ≡ sent c ++ es)
    tells_lem [] c t = (c, refl, sym (append-nil (sent c)))
    tells_lem (e ∷ es) c t =
        let (c', p, q) = tells_lem es (send e c).1 t in
        (c', p, q ∙ ap (λ s. s ++ es) (adds e c) ∙ append_assoc (sent c) (e ∷ []) es)

    pub Says-eq :
        (m : Reading (World site) (Unit {0})) (a b : Bytes) (r : Result (Unit {0}))
        → a ≡ b
        → Says r m a
        → Says r m b
    Says-eq m a b r e h c t = let (c', bs, p, q, f) = h c t in (c', bs, p, q, f ∙ e)

    -- A step says what the value is, if there is one.
    abbrev pub SaysValue : Reading (World site) (Unit {0}) → Option Bytes → Type 0
    SaysValue m value = (x : Bytes) → value ≡ some x → Says (ok tt) m x

    pub Says-some :
        (m : Reading (World site) (Unit {0})) (a : Bytes) → Says (ok tt) m a → SaysValue m (some a)
    Says-some m a h x e = Says-eq m a x (ok tt) (cc) h

    pub Says-none : (m : Reading (World site) (Unit {0})) → SaysValue m none
    Says-none m x e = cc

    pub Says-both :
        (m k : Reading (World site) (Unit {0})) (v u : Option Bytes)
        → SaysValue m v
        → SaysValue k u
        → SaysValue (m >>= λ z. k) (both_texts v u)
    Says-both m k v u h more x e =
        let (a, b, ea, eb, f) = both_texts-some v u x e in
        Says-eq (m >>= λ z. k) (a ++ b) x (ok tt) f (Says-then (ok tt) m k a b (h a ea) (more b eb))

    pub Says-if :
        (b : Bool) (m k : Reading (World site) (Unit {0})) (v u : Option Bytes)
        → SaysValue m v
        → SaysValue k u
        → SaysValue (if b then m else k) (if b then v else u)
    Says-if true m k v u h more = h
    Says-if false m k v u h more = more

    pub Says-static :
        (args : List (Bytes × Option Bytes)) (ts : List TemplateStep)
        → SaysValue
            (template_chunk site ts (template_static_var (World site) (wr site) args))
            (with_values (value_of args) ts)
    Says-static args ts out e =
        Says-template (value_of args) (template_static_var (World site) (wr site) args) ts out
          (Says-static_var args) e

    -- From `c` to `c'` chunks of this text were sent.
    abbrev pub Ran : Conn → Bytes → Conn → Type 0
    Ran c text c' = (bs : List Bytes) × (sent c' ≡ sent c ++ map chunk bs) × (concat bs ≡ text)

    pub Ran-then : (c c1 c2 : Conn) (a b : Bytes) → Ran c a c1 → Ran c1 b c2 → Ran c (a ++ b) c2
    Ran-then c c1 c2 a b (cs, e, g) (bs, f, h) =
        let (p, q) = after c c1 c2 cs bs a b e f g h in (cs ++ bs, p, q)

    -- A whole answer: the head, the chunks and the end.
    abbrev pub Answered : Conn → Bytes → Conn → Type 0
    Answered c text c' =
        (bs : List Bytes) × (sent c' ≡ sent c ++ (html_head ++ (map chunk bs ++ html_end)))
        × (concat bs ≡ text)

    pub Ran-Answered :
        (c c0 c1 c2 : Conn) (text : Bytes)
        → sent c0 ≡ sent c ++ html_head
        → Ran c0 text c1
        → sent c2 ≡ sent c1 ++ html_end
        → Answered c text c2
    Ran-Answered c c0 c1 c2 text e (bs, f, g) h = (
      bs,
      h
          ∙ ap (λ s. s ++ html_end) f
          ∙ ap (λ s. (s ++ map chunk bs) ++ html_end) e
          ∙ append_assoc (sent c ++ html_head) (map chunk bs) html_end
          ∙ append_assoc (sent c) html_head (map chunk bs ++ html_end),
      g,
    )
