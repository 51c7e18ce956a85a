-- ===== src/Tests/Answers.antt =====
-- Requests without a host, with another host and with the archive's own.
use hash_archive.Prelude.{none, some, codes, ◌≡◌, refl}
use hash_archive.Error.{overrun, uv_eacces, ok, err}
use hash_archive.Server.Answers.{check_host}

no_host : check_host none ≡ err overrun
unfolding check_host
no_host = refl

other_host : check_host (some (codes "evil.org:80")) ≡ err uv_eacces
unfolding check_host hash_archive.Prelude.case_eq hash_archive.Url.host_parse
    hash_archive.Url.Scan.run hash_archive.Prelude.is_alnum
other_host = refl

this_host : check_host (some (codes "Hash-Archive.org:8000")) ≡ ok tt
unfolding check_host hash_archive.Prelude.case_eq hash_archive.Url.host_parse
    hash_archive.Url.Scan.run hash_archive.Prelude.is_alnum hash_archive.Prelude.one_of
this_host = refl
