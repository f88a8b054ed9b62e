-- ===== src/ScanLimiter/Keys.antt =====
-- The keys of the fallback buckets: two keys are equal only for the same address, kind and window.
use secu_scan.Prelude.{
  show, show-injective, show-no_colon, ℕ, ◌≡◌, refl, ◌≢◌, ◌++◌, Text, codes, has_char,
  split_last_unique,
}
use secu_scan.ScanLimiter.{bucket_min, bucket_hr}

pub bucket_min-injective :
    (ip ip' : Text) (m n : ℕ) → bucket_min ip m ≡ bucket_min ip' n → (ip ≡ ip') × (m ≡ n)
unfolding bucket_min has_char
bucket_min-injective ip ip' m n e =
    let (front, back) =
      split_last_unique b':' (ip ++ codes ":minute") (ip' ++ codes ":minute") (show m) (show n)
        (show-no_colon m) (show-no_colon n) e in
    (
      (split_last_unique b':' ip ip' (codes "minute") (codes "minute") refl refl front).0,
      show-injective m n back,
    )

pub bucket_min-ne-hr : (ip ip' : Text) (m n : ℕ) → bucket_min ip m ≢ bucket_hr ip' n
unfolding bucket_min bucket_hr has_char
bucket_min-ne-hr ip ip' m n e =
    let (front, back) =
      split_last_unique b':' (ip ++ codes ":minute") (ip' ++ codes ":hour") (show m) (show n)
        (show-no_colon m) (show-no_colon n) e in
    cc ((split_last_unique b':' ip ip' (codes "minute") (codes "hour") refl refl front).1)
