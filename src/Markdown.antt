-- ===== src/Markdown.antt =====
-- src/util/markdown.c: what is made of the tree that cmark has read. A pass of the iterator visits a node
-- after its change only where the code goes on from it, so it is a function from each node to the
-- nodes that take its place.
pub mod Clean
pub mod Rounds
use hash_archive.Prelude.{
  ℕ, zero, suc, ◌==◌, Bool, true, false, ◌||◌, Bytes, List, [], ◌∷◌, ◌++◌, Option, none, some,
  codes, take, drop, length, strip_case, if◌then◌else◌,
}

-- The types of nodes that the passes tell apart, with their literal or their URL and title; `other` has
-- the number of its type.
mutual
  pub data Node : Type 0 where
    text : Bytes → Node
    html_block : Bytes → Node
    html_inline : Bytes → Node
    link : Bytes → Bytes → Nodes → Node
    image : Bytes → Bytes → Nodes → Node
    custom : Nodes → Node
    paragraph : Nodes → Node
    other : ℕ → Bytes → Nodes → Node

  pub data Nodes : Type 0 where
    none_left : Nodes
    then_node : Node → Nodes → Nodes

unfoldable pub append : Nodes → Nodes → Nodes
append none_left ys = ys
append (then_node x xs) ys = then_node x (append xs ys)

abbrev pub only : Node → Nodes
only n = then_node n none_left

abbrev pub hash_info_msg : Bytes
hash_info_msg = codes "Hash URI (right click and choose copy link)"

unfoldable pub superscript : Bytes → Bytes → Bytes → Node
superscript label title url = custom (
    then_node (html_inline (codes "<sup>["))
      (then_node (link url title (only (text label))) (only (html_inline (codes "]</sup>")))))

unfoldable mutual
  pub md_escape : Node → Node
  md_escape (text s) = text s
  md_escape (html_block s) = paragraph (only (text s))
  md_escape (html_inline s) = html_inline s
  md_escape (link u t ns) = link u t (md_escape_all ns)
  md_escape (image u t ns) = image u t (md_escape_all ns)
  md_escape (custom ns) = custom (md_escape_all ns)
  md_escape (paragraph ns) = paragraph (md_escape_all ns)
  md_escape (other k s ns) = other k s (md_escape_all ns)

  pub md_escape_all : Nodes → Nodes
  md_escape_all none_left = none_left
  md_escape_all (then_node n ns) = then_node (md_escape n) (md_escape_all ns)

unfoldable mutual
  pub md_escape_inline : Node → Node
  md_escape_inline (text s) = text s
  md_escape_inline (html_block s) = html_block s
  md_escape_inline (html_inline s) = text s
  md_escape_inline (link u t ns) = link u t (md_escape_inline_all ns)
  md_escape_inline (image u t ns) = image u t (md_escape_inline_all ns)
  md_escape_inline (custom ns) = custom (md_escape_inline_all ns)
  md_escape_inline (paragraph ns) = paragraph (md_escape_inline_all ns)
  md_escape_inline (other k s ns) = other k s (md_escape_inline_all ns)

  pub md_escape_inline_all : Nodes → Nodes
  md_escape_inline_all none_left = none_left
  md_escape_inline_all (then_node n ns) = then_node (md_escape_inline n) (md_escape_inline_all ns)

-- The three nodes that stand for a link found in a text.
abbrev pub linked : Bytes → Bytes → Nodes → Nodes
linked before abs rest = then_node (text before) (
    then_node (link (codes "/history/" ++ abs) [] (only (text abs)))
      (then_node (superscript (codes "^") [] abs) rest))

-- `linkify` is `regexec` with the pattern: the place and the length of the first match.
module _ (linkify : Bytes → Option (ℕ × ℕ)) where
  abbrev pub at_match : Bytes → Option (ℕ × ℕ) → (Bytes → Nodes) → Nodes
  at_match pos none more = only (text pos)
  at_match pos (some (loc, len)) more =
      linked (take loc pos) (take len (drop loc pos)) (more (drop len (drop loc pos)))

  -- A match is not empty, so that a round for each byte is enough.
  unfoldable pub autolink_text : ℕ → Bytes → Nodes
  autolink_text zero pos = only (text pos)
  autolink_text (suc fuel) pos = at_match pos (linkify pos) (autolink_text fuel)

  unfoldable mutual
    pub md_autolink : Node → Nodes
    md_autolink (text s) = autolink_text (length s) s
    md_autolink (html_block s) = only (html_block s)
    md_autolink (html_inline s) = only (html_inline s)
    md_autolink (link u t ns) = only (link u t (md_autolink_all ns))
    md_autolink (image u t ns) = only (image u t (md_autolink_all ns))
    md_autolink (custom ns) = only (custom (md_autolink_all ns))
    md_autolink (paragraph ns) = only (paragraph (md_autolink_all ns))
    md_autolink (other k s ns) = only (other k s (md_autolink_all ns))

    pub md_autolink_all : Nodes → Nodes
    md_autolink_all none_left = none_left
    md_autolink_all (then_node n ns) = append (md_autolink n) (md_autolink_all ns)

-- `0 == strncasecmp(URI, prefix, length)`
abbrev pub is_found : Option Bytes → Bool
is_found none = false
is_found (some rest) = true

unfoldable pub has_scheme : Bytes → Bytes → Bool
has_scheme prefix uri = is_found (strip_case prefix uri)

abbrev pub external_text : Nodes → Bytes
external_text none_left = codes "(external image)"
external_text (then_node n ns) = codes " (external image)"

-- An image whose children were passed.
unfoldable pub block_image : Bytes → Bytes → Nodes → Node
block_image u t ns =
    if has_scheme (codes "hash:") u || has_scheme (codes "data:") u
    then image u t ns
    else link u [] (append ns (only (text (external_text ns))))

unfoldable mutual
  pub md_block_external_images : Node → Node
  md_block_external_images (text s) = text s
  md_block_external_images (html_block s) = html_block s
  md_block_external_images (html_inline s) = html_inline s
  md_block_external_images (link u t ns) = link u t (block_images_all ns)
  md_block_external_images (image u t ns) = block_image u t (block_images_all ns)
  md_block_external_images (custom ns) = custom (block_images_all ns)
  md_block_external_images (paragraph ns) = paragraph (block_images_all ns)
  md_block_external_images (other k s ns) = other k s (block_images_all ns)

  pub block_images_all : Nodes → Nodes
  block_images_all none_left = none_left
  block_images_all (then_node n ns) = then_node (md_block_external_images n) (block_images_all ns)

-- `qs_escape` is `QSEscape` of libasync.
module _ (qs_escape : Bytes → Bytes) where
  -- A link or an image with the URL `u`, made by `make`.
  unfoldable pub convert_hash : (Bytes → Node) → Bytes → Nodes
  convert_hash make u =
      if has_scheme (codes "hash:") u
      then then_node (make (codes "/sources/" ++ qs_escape u))
          (only (superscript (codes "#") hash_info_msg u))
      else only (make u)

  unfoldable mutual
    pub md_convert_hashes : Node → Nodes
    md_convert_hashes (text s) = only (text s)
    md_convert_hashes (html_block s) = only (html_block s)
    md_convert_hashes (html_inline s) = only (html_inline s)
    md_convert_hashes (link u t ns) =
        let inner = md_convert_hashes_all ns in convert_hash (λ v. link v t inner) u
    md_convert_hashes (image u t ns) =
        let inner = md_convert_hashes_all ns in convert_hash (λ v. image v t inner) u
    md_convert_hashes (custom ns) = only (custom (md_convert_hashes_all ns))
    md_convert_hashes (paragraph ns) = only (paragraph (md_convert_hashes_all ns))
    md_convert_hashes (other k s ns) = only (other k s (md_convert_hashes_all ns))

    pub md_convert_hashes_all : Nodes → Nodes
    md_convert_hashes_all none_left = none_left
    md_convert_hashes_all (then_node n ns) = append (md_convert_hashes n) (md_convert_hashes_all ns)

-- The children of the document, whose own event the iterator misses.
unfoldable pub md_process : (Bytes → Option (ℕ × ℕ)) → (Bytes → Bytes) → Nodes → Nodes
md_process linkify qs_escape document =
    md_convert_hashes_all qs_escape
      (block_images_all (md_autolink_all linkify (md_escape_inline_all (md_escape_all document))))
