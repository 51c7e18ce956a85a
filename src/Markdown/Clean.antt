-- ===== src/Markdown/Clean.antt =====
-- What is left of HTML and of images after `md_process`.
use hash_archive.Prelude.{
  ℕ, zero, suc, Bool, true, false, inl, inr, ◌||◌, Bytes, [], ◌++◌, Option, none, some, codes,
  length, if◌then◌else◌, ◌≡◌, ◌⊎◌, refl, arith,
}
use hash_archive.Markdown.{
  Node, text, html_block, html_inline, link, image, custom, paragraph, other, Nodes, none_left,
  then_node, append, hash_info_msg, superscript, external_text, has_scheme, md_escape,
  md_escape_all, md_escape_inline, md_escape_inline_all, at_match, autolink_text, md_autolink,
  md_autolink_all, block_image, md_block_external_images, block_images_all, convert_hash,
  md_convert_hashes, md_convert_hashes_all, md_process,
}

-- Blocks of HTML, pieces of HTML and images are only those that are allowed.
module _ (block inline img : Bytes → Type 0) where
  unfoldable mutual
    pub Only : Node → Type 0
    Only (text s) = Unit {0}
    Only (html_block s) = block s
    Only (html_inline s) = inline s
    Only (link u t ns) = OnlyAll ns
    Only (image u t ns) = img u × OnlyAll ns
    Only (custom ns) = OnlyAll ns
    Only (paragraph ns) = OnlyAll ns
    Only (other k s ns) = OnlyAll ns

    pub OnlyAll : Nodes → Type 0
    OnlyAll none_left = Unit {0}
    OnlyAll (then_node n ns) = Only n × OnlyAll ns

  append-OnlyAll : (xs ys : Nodes) → OnlyAll xs → OnlyAll ys → OnlyAll (append xs ys)
  unfolding append Only
  append-OnlyAll none_left ys hx hy = hy
  append-OnlyAll (then_node x xs) ys (px, hx) hy = (px, append-OnlyAll xs ys hx hy)

abbrev Any : Bytes → Type 0
Any s = Unit {0}

abbrev No : Bytes → Type 0
No s = ⊥

-- The two pieces that `superscript` writes.
abbrev pub IsSup : Bytes → Type 0
IsSup s = (s ≡ codes "<sup>[") ⊎ (s ≡ codes "]</sup>")

abbrev IsShown : Bytes → Type 0
IsShown u = (has_scheme (codes "hash:") u || has_scheme (codes "data:") u) ≡ true

-- An image of this site, or one that the document itself holds.
abbrev pub IsLocal : Bytes → Type 0
IsLocal u =
    (has_scheme (codes "data:") u ≡ true) ⊎ ((rest : Bytes) × (u ≡ codes "/sources/" ++ rest))

mutual
  unfolding md_escape Only

  md_escape-Only : (n : Node) → Only No Any Any (md_escape n)
  md_escape-Only (text s) = tt
  md_escape-Only (html_block s) = (tt, tt)
  md_escape-Only (html_inline s) = tt
  md_escape-Only (link u t ns) = md_escape_all-Only ns
  md_escape-Only (image u t ns) = (tt, md_escape_all-Only ns)
  md_escape-Only (custom ns) = md_escape_all-Only ns
  md_escape-Only (paragraph ns) = md_escape_all-Only ns
  md_escape-Only (other k s ns) = md_escape_all-Only ns

  md_escape_all-Only : (ns : Nodes) → OnlyAll No Any Any (md_escape_all ns)
  md_escape_all-Only none_left = tt
  md_escape_all-Only (then_node n ns) = (md_escape-Only n, md_escape_all-Only ns)

mutual
  unfolding md_escape_inline Only

  inline-Only : (n : Node) → Only No Any Any n → Only No No Any (md_escape_inline n)
  inline-Only (text s) h = tt
  inline-Only (html_block s) h = h
  inline-Only (html_inline s) h = tt
  inline-Only (link u t ns) h = inline_all-Only ns h
  inline-Only (image u t ns) (i, h) = (tt, inline_all-Only ns h)
  inline-Only (custom ns) h = inline_all-Only ns h
  inline-Only (paragraph ns) h = inline_all-Only ns h
  inline-Only (other k s ns) h = inline_all-Only ns h

  inline_all-Only :
      (ns : Nodes) → OnlyAll No Any Any ns → OnlyAll No No Any (md_escape_inline_all ns)
  inline_all-Only none_left h = tt
  inline_all-Only (then_node n ns) (hn, h) = (inline-Only n hn, inline_all-Only ns h)

superscript-Only :
    (img : Bytes → Type 0) (label title url : Bytes)
    → Only No IsSup img (superscript label title url)
unfolding superscript Only
superscript-Only img label title url = (inl refl, ((tt, tt), (inr refl, tt)))

module _ (linkify : Bytes → Option (ℕ × ℕ)) where
  autolink_text-Only :
      (fuel : ℕ) (pos : Bytes) → OnlyAll No IsSup Any (autolink_text linkify fuel pos)
  unfolding autolink_text Only
  autolink_text-Only zero pos = (tt, tt)
  autolink_text-Only (suc fuel) pos = go (linkify pos) (autolink_text-Only fuel)
    where
      go :
          (m : Option (ℕ × ℕ))
          → ((rest : Bytes) → OnlyAll No IsSup Any (autolink_text linkify fuel rest))
          → OnlyAll No IsSup Any (at_match linkify pos m (autolink_text linkify fuel))
      go none more = (tt, tt)
      go (some (loc, len)) more = (tt, ((tt, tt), (superscript-Only Any (codes "^") [] _, more _)))

  mutual
    unfolding md_autolink Only

    autolink-Only : (n : Node) → Only No No Any n → OnlyAll No IsSup Any (md_autolink linkify n)
    autolink-Only (text s) h = autolink_text-Only (length s) s
    autolink-Only (html_block s) h = absurd h
    autolink-Only (html_inline s) h = absurd h
    autolink-Only (link u t ns) h = (autolink_all-Only ns h, tt)
    autolink-Only (image u t ns) (i, h) = ((tt, autolink_all-Only ns h), tt)
    autolink-Only (custom ns) h = (autolink_all-Only ns h, tt)
    autolink-Only (paragraph ns) h = (autolink_all-Only ns h, tt)
    autolink-Only (other k s ns) h = (autolink_all-Only ns h, tt)

    autolink_all-Only :
        (ns : Nodes) → OnlyAll No No Any ns → OnlyAll No IsSup Any (md_autolink_all linkify ns)
    autolink_all-Only none_left h = tt
    autolink_all-Only (then_node n ns) (hn, h) =
        append-OnlyAll No IsSup Any (md_autolink linkify n) (md_autolink_all linkify ns)
          (autolink-Only n hn) (autolink_all-Only ns h)

block_image-Only :
    (u t : Bytes) (ns : Nodes)
    → OnlyAll No IsSup IsShown ns
    → Only No IsSup IsShown (block_image u t ns)
unfolding block_image Only
block_image-Only u t ns h = go (has_scheme (codes "hash:") u || has_scheme (codes "data:") u) refl
  where
    go :
        (b : Bool)
        → (has_scheme (codes "hash:") u || has_scheme (codes "data:") u) ≡ b
        → Only No IsSup IsShown (
            if b
            then image u t ns
            else link u [] (append ns (then_node (text (external_text ns)) none_left)))
    go true e = (e, h)
    go false e = append-OnlyAll No IsSup IsShown ns _ h (tt, tt)

mutual
  unfolding md_block_external_images Only

  images-Only :
      (n : Node) → Only No IsSup Any n → Only No IsSup IsShown (md_block_external_images n)
  images-Only (text s) h = tt
  images-Only (html_block s) h = h
  images-Only (html_inline s) h = h
  images-Only (link u t ns) h = images_all-Only ns h
  images-Only (image u t ns) (i, h) =
      block_image-Only u t (block_images_all ns) (images_all-Only ns h)
  images-Only (custom ns) h = images_all-Only ns h
  images-Only (paragraph ns) h = images_all-Only ns h
  images-Only (other k s ns) h = images_all-Only ns h

  images_all-Only :
      (ns : Nodes) → OnlyAll No IsSup Any ns → OnlyAll No IsSup IsShown (block_images_all ns)
  images_all-Only none_left h = tt
  images_all-Only (then_node n ns) (hn, h) = (images-Only n hn, images_all-Only ns h)

module _ (qs_escape : Bytes → Bytes) where
  convert_hash-Only :
      (make : Bytes → Node) (u : Bytes)
      → ((v : Bytes) → IsLocal v → Only No IsSup IsLocal (make v))
      → (has_scheme (codes "hash:") u ≡ false → Only No IsSup IsLocal (make u))
      → OnlyAll No IsSup IsLocal (convert_hash qs_escape make u)
  unfolding convert_hash Only
  convert_hash-Only make u local kept = go (has_scheme (codes "hash:") u) refl
    where
      go :
          (b : Bool)
          → has_scheme (codes "hash:") u ≡ b
          → OnlyAll No IsSup IsLocal (
              if b
              then then_node
                  (make (codes "/sources/" ++ qs_escape u))
                  (then_node (superscript (codes "#") hash_info_msg u) none_left)
              else then_node (make u) none_left)
      go true e = (
        local (codes "/sources/" ++ qs_escape u) (inr (qs_escape u, refl)),
        (superscript-Only IsLocal (codes "#") hash_info_msg u, tt),
      )
      go false e = (kept e, tt)

  data_left : (a b : Bool) → (a || b) ≡ true → a ≡ false → b ≡ true
  data_left a b h e = ground arith

  mutual
    unfolding md_convert_hashes Only

    convert-Only :
        (n : Node)
        → Only No IsSup IsShown n
        → OnlyAll No IsSup IsLocal (md_convert_hashes qs_escape n)
    convert-Only (text s) h = (tt, tt)
    convert-Only (html_block s) h = (h, tt)
    convert-Only (html_inline s) h = (h, tt)
    convert-Only (link u t ns) h =
        let inner = convert_all-Only ns h in
        convert_hash-Only (λ v. link v t (md_convert_hashes_all qs_escape ns)) u (λ v l. inner)
          (λ e. inner)
    convert-Only (image u t ns) (i, h) =
        let inner = convert_all-Only ns h in
        convert_hash-Only (λ v. image v t (md_convert_hashes_all qs_escape ns)) u
          (λ v l. (l, inner)) (λ e. (inl (data_left _ _ i e), inner))
    convert-Only (custom ns) h = (convert_all-Only ns h, tt)
    convert-Only (paragraph ns) h = (convert_all-Only ns h, tt)
    convert-Only (other k s ns) h = (convert_all-Only ns h, tt)

    convert_all-Only :
        (ns : Nodes)
        → OnlyAll No IsSup IsShown ns
        → OnlyAll No IsSup IsLocal (md_convert_hashes_all qs_escape ns)
    convert_all-Only none_left h = tt
    convert_all-Only (then_node n ns) (hn, h) =
        append-OnlyAll No IsSup IsLocal (md_convert_hashes qs_escape n)
          (md_convert_hashes_all qs_escape ns) (convert-Only n hn) (convert_all-Only ns h)

-- Whatever the document holds, and wherever links are found in its text, after `md_process` there is no
-- block of HTML in it, the only pieces of HTML are the two tags of a superscript, and every
-- image is of this site or is held in the document itself.
pub md_process-Only :
    (linkify : Bytes → Option (ℕ × ℕ)) (qs_escape : Bytes → Bytes) (document : Nodes)
    → OnlyAll No IsSup IsLocal (md_process linkify qs_escape document)
unfolding md_process
md_process-Only linkify qs_escape document = convert_all-Only qs_escape _ (
    images_all-Only _
      (autolink_all-Only linkify _ (inline_all-Only _ (md_escape_all-Only document))))
