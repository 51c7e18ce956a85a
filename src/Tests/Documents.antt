-- ===== src/Tests/Documents.antt =====
-- A document with a block of HTML, an image of another site and one of a hash.
use hash_archive.Prelude.{
  ℕ, Bytes, Option, none, some, bytes_eq, codes, [], if◌then◌else◌, ◌≡◌, refl,
}
use hash_archive.Markdown.{
  text, html_block, html_inline, link, image, paragraph, Nodes, none_left, then_node, only,
  superscript, hash_info_msg, md_process,
}
use hash_archive.Markdown.Clean.{OnlyAll, IsSup, IsLocal, md_process-Only}

abbrev found : Bytes → Option (ℕ × ℕ)
found s = if bytes_eq s (codes "at http://a.org/.") then some (3, 13) else none

abbrev same : Bytes → Bytes
same s = s

abbrev document : Nodes
document = then_node (html_block (codes "<script>")) (
    then_node (image (codes "http://a.org/i.png") [] none_left) (
      then_node (image (codes "hash://sha1/00") [] none_left)
        (only (paragraph (only (text (codes "at http://a.org/.")))))))

abbrev processed : Nodes
processed = then_node (paragraph (only (text (codes "<script>")))) (
    then_node (link (codes "http://a.org/i.png") [] (only (text (codes "(external image)")))) (
      then_node (image (codes "/sources/hash://sha1/00") [] none_left) (
        then_node (superscript (codes "#") hash_info_msg (codes "hash://sha1/00")) (
          only (
            paragraph (
              then_node (text (codes "at ")) (
                then_node
                  (link (codes "/history/http://a.org/") [] (only (text (codes "http://a.org/"))))
                  (then_node (superscript (codes "^") [] (codes "http://a.org/"))
                    (only (text (codes ".")))))))))))

whole_run : md_process found same document ≡ processed
unfolding md_process hash_archive.Markdown.md_convert_hashes_all
    hash_archive.Markdown.block_images_all hash_archive.Markdown.md_autolink_all
    hash_archive.Markdown.md_escape_inline_all hash_archive.Markdown.md_escape_all
    hash_archive.Markdown.append hash_archive.Markdown.autolink_text
    hash_archive.Markdown.block_image bytes_eq hash_archive.Markdown.has_scheme
    hash_archive.Prelude.strip_case hash_archive.Markdown.convert_hash superscript
whole_run = refl

md_process-Only_example : OnlyAll (λ s. ⊥) IsSup IsLocal (md_process found same document)
md_process-Only_example = md_process-Only found same document
