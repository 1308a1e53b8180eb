-- ===== src/Router/Backpressure.antt =====
-- The water marks and the slow flag of a session (router.go, `aggregate`).
use multi_terminal.Base.{
  ℕ, zero, suc, ◌+◌, ◌*◌, ◌/◌, ◌%◌, ◌^◌, ◌==◌, append-nil, ◌≤◌, ◌<◌, ◌≡◌, ◌↔◌, refl, sym, ap, ◌∙◌,
  Bool, true, false, ◌&&◌, ◌||◌, not, [], ◌∷◌, ◌++◌, some, if◌then◌else◌, leb, length,
  length-append, arith, ◌⊎◌, inl, inr, Bool-cases,
}
use multi_terminal.Base.Slices.{Bytes, codes}
use multi_terminal.Base.Outcome.{ret, panic}
use multi_terminal.Codec.{ok, serialize, deserialize}
use multi_terminal.Codec.Grammar.{encode, IsFrame}
use multi_terminal.Codec.Write.{serialize-encode}
use multi_terminal.Codec.RoundTrip.{deserialize-encode, All-IsSized}
use multi_terminal.Session.{Session, Manager, set_slow, put_back}
use multi_terminal.Session
use multi_terminal.Session.Registry.{get-put_back}
use multi_terminal.Ring.{RingBuffer, buffer_size, is_high, is_low, available}
use multi_terminal.Ring.Contents.{IsValid, contents, length-contents}
use multi_terminal.Router.{
  Router, slow_text, slow_warning, broadcast, send_slow_warning, check_marks, decimal, bool_text,
  uint32_digits,
}

-- The two marks in terms of the bytes that wait.
pub marks_iff :
    (size : ℕ) (rb : RingBuffer)
    → IsValid size rb
    → ((is_high size rb ≡ true) ↔ (size * 85 / 100 ≤ length (contents size rb)))
      × ((is_low size rb ≡ true) ↔ (length (contents size rb) ≤ size * 50 / 100))
unfolding is_high is_low available
marks_iff size rb v =
    rw (length-contents size rb)
      (((λ h. ground arith), (λ h. ground arith)), ((λ h. ground arith), (λ h. ground arith)))

length-decimal : (digits n : ℕ) → length (decimal digits n) ≤ digits
unfolding decimal
length-decimal zero n = omega arith
length-decimal (suc digits) n = ground (
  arith,
  length-append (decimal digits (n / 10)) ((48 + n % 10) ∷ []),
  length-decimal digits (n / 10),
)

length-bool_text : (b : Bool) → length (bool_text b) ≤ 5
unfolding bool_text
length-bool_text true = omega arith
length-bool_text false = omega arith

length-slow_text : (id : ℕ) (slow : Bool) → length (slow_text id slow) < 65536
unfolding slow_text
length-slow_text id slow = omega (
  arith,
  length-append (decimal uint32_digits id) (codes ",\"isSlow\":" ++ (bool_text slow ++ codes "}")),
  length-append (bool_text slow) (codes "}"),
  length-decimal uint32_digits id,
  length-bool_text slow,
)

slow_warning-IsFrame : (id : ℕ) (slow : Bool) → id < 2 ^ 32 → IsFrame (slow_warning id slow)
unfolding slow_warning
slow_warning-IsFrame id slow h = record {
  counted = refl;
  blocks = (
    record {
      sized = omega (arith, length-slow_text id slow);
      id_fits = h;
      length_fits = omega arith;
    },
    tt,
  );
}

-- What is sent for a warning, and that a client reads the warning back from it.
abbrev pub warning : ℕ → Bool → Bytes
warning id slow = encode (slow_warning id slow)

serialize-slow_warning :
    (id : ℕ) (slow : Bool) → id < 2 ^ 32 → serialize (slow_warning id slow) ≡ ret (warning id slow)
serialize-slow_warning id slow h =
    let frame = slow_warning-IsFrame id slow h in
    serialize-encode (slow_warning id slow)
      (All-IsSized (slow_warning id slow).sessions frame.blocks)

pub deserialize-warning :
    (id : ℕ) (slow : Bool)
    → id < 2 ^ 32
    → deserialize (warning id slow) ≡ ret (ok (slow_warning id slow))
deserialize-warning id slow h =
    ap deserialize (sym (append-nil (warning id slow)))
    ∙ deserialize-encode (slow_warning id slow) [] (slow_warning-IsFrame id slow h)

-- The router behind a broadcast that did not panic.
abbrev pub after_send : Router → Bytes → Router
after_send r message = record r { sent = r.sent ++ message ∷ [] }

-- Some call of the router's hub panics.
abbrev pub Struck : Router → Type 0
Struck r = (k : ℕ) × (r.hub_panics k ≡ true)

-- A slow warning for a session with a 32-bit id is broadcast, or the hub panics.
pub send_slow_warning_lem :
    (r : Router) (id : ℕ) (slow : Bool)
    → id < 2 ^ 32
    → (send_slow_warning r id slow ≡ ret (after_send r (warning id slow)))
      ⊎ ((send_slow_warning r id slow ≡ panic) × Struck r)
unfolding send_slow_warning broadcast
send_slow_warning_lem r id slow h =
    rw (serialize-slow_warning id slow h) (elim (Bool-cases (r.hub_panics (length r.sent))) [
      | inl struck ↦ inr (rw struck refl, (length r.sent, struck))
      | inr calm ↦ inl (rw calm refl)
    ])

module _ (size : ℕ) where
  -- The slow flag after the two tests.
  abbrev pub next_slow : Session → RingBuffer → Bool
  next_slow s rb =
      if is_high size rb && not s.is_slow
      then true
      else if is_low size rb && s.is_slow
      then false
      else s.is_slow

  -- What the tests change.
  unfoldable pub marked : Router → ℕ → Session → RingBuffer → Router
  marked r id s rb =
      if is_high size rb && not s.is_slow
      then record r {
        manager = put_back r.manager id (set_slow s true);
        sent = r.sent ++ warning id true ∷ [];
      }
      else if is_low size rb && s.is_slow
      then record r {
        manager = put_back r.manager id (set_slow s false);
        sent = r.sent ++ warning id false ∷ [];
      }
      else r

  pub check_marks_lem :
      (r : Router) (id : ℕ) (s : Session) (rb : RingBuffer)
      → id < 2 ^ 32
      → (check_marks size r id s rb ≡ ret (marked r id s rb))
        ⊎ ((check_marks size r id s rb ≡ panic) × Struck r)
  unfolding check_marks marked
  check_marks_lem r id s rb h =
      by_tests (is_high size rb && not s.is_slow) (is_low size rb && s.is_slow)
    where
      up : Router
      up = record r { manager = put_back r.manager id (set_slow s true) }

      down : Router
      down = record r { manager = put_back r.manager id (set_slow s false) }

      by_tests :
          (high low : Bool)
          → let o =
              if high
              then send_slow_warning up id true
              else if low
              then send_slow_warning down id false
              else ret r in
            (o
              ≡ ret (
                  if high
                  then after_send up (warning id true)
                  else if low
                  then after_send down (warning id false)
                  else r))
            ⊎ ((o ≡ panic) × Struck r)
      by_tests true low = send_slow_warning_lem up id true h
      by_tests false true = send_slow_warning_lem down id false h
      by_tests false false = inl refl

  pub get-marked :
      (r : Router) (id j : ℕ) (s : Session) (rb : RingBuffer)
      → Session.get r.manager id ≡ some s
      → Session.get (marked r id s rb).manager j
        ≡ (if id == j then some (set_slow s (next_slow s rb)) else Session.get r.manager j)
  unfolding marked set_slow
  get-marked r id j s rb found = ground (
    arith,
    get-put_back r.manager id j (set_slow s true),
    get-put_back r.manager id j (set_slow s false),
    found,
  )

  pub buffers-marked :
      (r : Router) (id : ℕ) (s : Session) (rb : RingBuffer)
      → ((marked r id s rb).buffers ≡ r.buffers)
        × ((marked r id s rb).pool ≡ r.pool)
        × ((marked r id s rb).hub_panics ≡ r.hub_panics)
  unfolding marked
  buffers-marked r id s rb =
      by_tests (is_high size rb && not s.is_slow) (is_low size rb && s.is_slow)
    where
      Same : Router → Type 0
      Same m = (m.buffers ≡ r.buffers) × (m.pool ≡ r.pool) × (m.hub_panics ≡ r.hub_panics)

      by_tests :
          (high low : Bool)
          → Same (
              if high
              then record r {
                manager = put_back r.manager id (set_slow s true);
                sent = r.sent ++ warning id true ∷ [];
              }
              else if low
              then record r {
                manager = put_back r.manager id (set_slow s false);
                sent = r.sent ++ warning id false ∷ [];
              }
              else r)
      by_tests true low = (refl, refl, refl)
      by_tests false true = (refl, refl, refl)
      by_tests false false = (refl, refl, refl)

  -- A warning that was sent: the session's new flag.
  pub sent-marked :
      (r : Router) (id : ℕ) (s : Session) (rb : RingBuffer)
      → (marked r id s rb).sent ≡ (
          if (is_high size rb && not s.is_slow) || (is_low size rb && s.is_slow)
          then r.sent ++ warning id (not s.is_slow) ∷ []
          else r.sent)
  unfolding marked
  sent-marked r id s rb = ground arith

-- At the real size of a buffer: after a tick's check the session of a valid buffer is slow if at
-- least 891289 bytes wait, is not if at most 524288 wait, and in between stays as it was.
pub next_slow_hysteresis :
    (s : Session) (rb : RingBuffer)
    → IsValid buffer_size rb
    → let waiting = length (contents buffer_size rb) in
      next_slow buffer_size s rb
      ≡ (if leb 891289 waiting then true else if leb waiting 524288 then false else s.is_slow)
unfolding is_high is_low available
next_slow_hysteresis s rb v = rw (length-contents buffer_size rb) (ground arith)
