-- ===== src/Codes.antt =====
-- src/errors.h: the texts of the codes, and the status that a code is answered with.
use hash_archive.Prelude.{
  ℕ, suc, ◌==◌, Bytes, List, [], ◌∷◌, Option, none, some, codes, if◌then◌else◌,
}
use hash_archive.Error.{Error, hash_epanic, hash_eparse, hash_enotsup, url_eparse, Result, ok, err}
use hash_archive.Db.Response.{ℤ, pos, negsuc}

-- `HX_ERRORS`: the codes without their signs.
unfoldable pub hx_errors : List (ℕ × Bytes)
hx_errors =
    (12400, codes "unknown error")
    ∷ (12401, codes "blocked")
    ∷ (12402, codes "not found")
    ∷ (12403, codes "connection refused")
    ∷ (12404, codes "too many redirects")
    ∷ (12405, codes "truncated response")
    ∷ (12406, codes "connection timed out")
    ∷ (12501, codes "certificate expired")
    ∷ (12502, codes "unable to verify leaf signature")
    ∷ (12503, codes "unable to get issuer cert")
    ∷ (12504, codes "unable to get certificate revocation list")
    ∷ (12505, codes "unable to decrypt certificate signature")
    ∷ (12506, codes "unable to decrypt CRL signature")
    ∷ (12507, codes "unable to decode issuer public key")
    ∷ (12508, codes "certificate signature failure")
    ∷ (12509, codes "CRL signature failure")
    ∷ (12510, codes "certificate not yet valid")
    ∷ (12511, codes "CRL not yet valid")
    ∷ (12512, codes "CRL expired")
    ∷ (12513, codes "error in certificate not before field")
    ∷ (12514, codes "error in certificate not after field")
    ∷ (12515, codes "error in CRL last update field")
    ∷ (12516, codes "error in CRL next update field")
    ∷ (12517, codes "out of memory")
    ∷ (12518, codes "depth zero self-signed certificate")
    ∷ (12519, codes "self-signed certificate in chain")
    ∷ (12520, codes "unable to get issuer certificate locally")
    ∷ (12521, codes "certificate chain too long")
    ∷ (12522, codes "certificate revoked")
    ∷ (12523, codes "invalid certificate authority")
    ∷ (12524, codes "path length exceeded")
    ∷ (12525, codes "invalid purpose")
    ∷ (12526, codes "certificate untrusted")
    ∷ (12527, codes "certificate rejected")
    ∷ []

-- `hash_strerror` of src/util/hash.h, with `EINVAL` and `ENOMEM` of Linux.
unfoldable pub hash_errors : List (ℕ × Bytes)
hash_errors =
    (22, codes "Invalid argument")
    ∷ (12, codes "No memory")
    ∷ (15701, codes "Hash panic")
    ∷ (15702, codes "Hash parse error")
    ∷ (15703, codes "Hash algorithm or option not supported")
    ∷ []

-- The `case` of a code.
unfoldable pub text_of_code : List (ℕ × Bytes) → ℕ → Option Bytes
text_of_code [] n = none
text_of_code ((m, text) ∷ rest) n =
    let later = text_of_code rest n in if m == n then some text else later

abbrev pub or_text : Option Bytes → Bytes → Bytes
or_text none later = later
or_text (some text) later = text

-- `lib_strerror` is `kvs_strerror`, and `uv_strerror` where that has no text.
unfoldable pub hx_strerror : (ℤ → Bytes) → ℤ → Bytes
hx_strerror lib_strerror (pos n) = codes "No error"
hx_strerror lib_strerror (negsuc n) =
    or_text (text_of_code hx_errors (suc n))
      (or_text (text_of_code hash_errors (suc n)) (lib_strerror (negsuc n)))

-- `http_error` is `HTTPError` of libasync.
unfoldable pub hx_httperr : (Error → ℕ) → Result (Unit {0}) → ℕ
hx_httperr http_error (ok u) = 0
hx_httperr http_error (err hash_epanic) = 500
hx_httperr http_error (err hash_eparse) = 400
hx_httperr http_error (err hash_enotsup) = 500
hx_httperr http_error (err url_eparse) = 400
hx_httperr http_error (err e) = http_error e
