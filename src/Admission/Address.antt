-- ===== src/Admission/Address.antt =====
-- Under which address a request is counted (server.go, `extractIP`).
use Prim.Native.Char.{Char, code}
use Prim.Native.String.{String, ◌++◌}
use Prim.Native.String.compare.{cons-nil}
use Prim.Native.String.append.{nil, cons}
use text.Mathlib.Text.{◌==◌ as str_eq}
use multi_terminal.Base.{
  ℕ, ◌≡◌, ◌≢◌, refl, ap, ◌∙◌, Bool, false, Option, some, arith, ◌==◌, ==_refl,
}
use multi_terminal.Admission.{Gateway, put, before, cut, extract_ip, handle_ws, handle_request}

-- The character is not in the text.
abbrev pub Without : ℕ → String → Type 0
Without mark String.[] = Unit {0}
Without mark (String.◌∷◌ c s) = (code c ≢ mark) × Without mark s

before_lem :
    (mark : ℕ) (c : Char) (front back : String)
    → code c ≡ mark
    → Without mark front
    → before mark (front ++ String.◌∷◌ c back) ≡ some front
unfolding before put
before_lem mark c String.[] back hit w = rw (nil, hit, ==_refl) refl
before_lem mark c (String.◌∷◌ d front) back hit w =
    rw (cons, miss (code d) mark w.0, before_lem mark c front back hit w.1) refl
  where
    miss : (a b : ℕ) → a ≢ b → (a == b) ≡ false
    miss a b h = ground arith

cut_lem :
    (mark : ℕ) (c : Char) (front back : String)
    → code c ≡ mark
    → Without mark front
    → cut mark (front ++ String.◌∷◌ c back) ≡ front
unfolding cut
cut_lem mark c front back hit w = rw (before_lem mark c front back hit w) refl

nonempty : (c : Char) (front back : String) → str_eq (front ++ String.◌∷◌ c back) "" ≡ false
nonempty c String.[] back = rw (nil, cons-nil) refl
nonempty c (String.◌∷◌ d front) back = rw (cons, cons-nil) refl

one_more : (c : Char) (back : String) → String.◌∷◌ c "" ++ back ≡ String.◌∷◌ c back
one_more c back = cons c "" back ∙ ap (String.◌∷◌ c) (nil back)

-- A request with a list in X-Forwarded-For is counted under what stands before its first comma,
-- trimmed, whatever the rest of the request says, so its sender chooses the address. Without
-- X-Forwarded-For and X-Real-IP, it is counted under what stands before the first colon of the remote
-- address, so that all clients whose IPv6 address begins with the same group, such as `[2001`, are
-- counted as one.
pub extract_ip_lem :
    (trim : String → String) (head tail real remote host port : String)
    → Without b',' head
    → Without b':' host
    → (extract_ip trim
          (record { forwarded_for = head ++ ("," ++ tail); real_ip = real; remote_addr = remote })
        ≡ trim head)
      × (extract_ip trim
            (record { forwarded_for = ""; real_ip = ""; remote_addr = host ++ (":" ++ port) })
          ≡ host)
unfolding extract_ip
extract_ip_lem trim head tail real remote host port w v = (
  rw (one_more "," tail, nonempty, cut_lem b',' "," head tail refl w) refl,
  rw (one_more ":" port) (cut_lem b':' ":" host port refl v),
)

-- The handler treats a request without those headers as one from that part of its remote address.
pub handle_request_host :
    (trim : String → String) (g : Gateway) (host port : String) (now : ℕ) (upgraded : Bool)
    (wanted : Option ℕ)
    → Without b':' host
    → handle_request trim g
        (record { forwarded_for = ""; real_ip = ""; remote_addr = host ++ (":" ++ port) })
        now
        upgraded
        wanted
      ≡ handle_ws g host now upgraded wanted
unfolding handle_request
handle_request_host trim g host port now upgraded wanted w =
    rw ((extract_ip_lem trim "" "" "" "" host port tt w).1) refl
