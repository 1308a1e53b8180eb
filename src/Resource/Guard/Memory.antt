-- ===== src/Resource/Guard/Memory.antt =====
-- The warning of the check before the start (resource/guard.go).
use multi_terminal.Base.{
  ℕ, ◌*◌, ◌^◌, ◌≤◌, ◌<◌, ◌≡◌, ◌↔◌, refl, sym, ap, subst, ◌∙◌, Bool, true, false, none, some, leb,
  ltb, le→ltb, lt→leb, ltb→lt, lt→ltb, ◌||◌, ◌%◌, if◌then◌else◌, arith,
}
use multi_terminal.Resource.Guard.{
  min_fd_limit, check_fd_limit, fd_limit_too_low, low_memory, warns,
}

warned :
    (cur bavail bsize : ℕ)
    → min_fd_limit ≤ cur
    → warns (some cur) (some (bavail, bsize)) ≡ low_memory bavail bsize
unfolding warns check_fd_limit
warned cur bavail bsize enough =
    ap
      (λ b. elim (if b then some (fd_limit_too_low cur) else none) as (λ _. Bool) [
        | none ↦ low_memory bavail bsize
        | some e ↦ false
      ])
      (le→ltb cur min_fd_limit enough)

-- With enough descriptors and below the range of int64, the warning is logged exactly if fewer than
-- 256 MB are free on the file system of `/`, which is a disk and not the memory that the message names.
pub warns_iff :
    (cur bavail bsize : ℕ)
    → min_fd_limit ≤ cur
    → bavail * bsize < 2 ^ 63
    → (warns (some cur) (some (bavail, bsize)) ≡ true) ↔ (bavail * bsize < 256 * 1024 * 1024)
unfolding low_memory
warns_iff cur bavail bsize enough small =
    subst (λ b. (b ≡ true) ↔ (bavail * bsize < 256 * 1024 * 1024))
      (sym (warned cur bavail bsize enough)) (tested (bavail * bsize) small)
  where
    tested :
        (p : ℕ)
        → p < 2 ^ 63
        → ((leb (2 ^ 63) (p % 2 ^ 64) || ltb (p % 2 ^ 64) (256 * 1024 * 1024)) ≡ true)
          ↔ (p < 256 * 1024 * 1024)
    tested p h =
        let fits : p % 2 ^ 64 ≡ p = omega (arith, h) in
        rw (fits, lt→leb (2 ^ 63) p h) ((λ e. ltb→lt p _ e), (λ e. lt→ltb p _ e))

-- A disk with 2 ^ 63 free bytes is warned of, since the cast to int64 makes the count negative.
pub vast_warns : (cur : ℕ) → min_fd_limit ≤ cur → warns (some cur) (some (2 ^ 51, 2 ^ 12)) ≡ true
unfolding low_memory
vast_warns cur enough = warned cur (2 ^ 51) (2 ^ 12) enough ∙ refl
