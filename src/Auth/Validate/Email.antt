-- ===== src/Auth/Validate/Email.antt =====
-- `validateEmail` against the shape that its expression describes.
use Prim.Native.String.{[], ◌∷◌, ◌++◌}
use text.Mathlib.TextLemmas.{nil-append, cons-append}
use text.Mathlib.TextEquality.{Char-path}
use synora_hackathon.Prelude.{
  ℕ, ◌≡◌, ◌↔◌, sym, ap, ◌∙◌, Char, inl, inr, Bool, true, false, not, ◌&&◌, code, String, arith,
  Bool-cases, ◌==◌,
}
use synora_hackathon.Js.Text.{is_space}
use synora_hackathon.Auth.Validate.{
  is_plain, plain_rest, some_plain, after_host, is_domain, after_local, validate_email,
}

-- Only characters that are neither white space nor an at sign.
abbrev pub AllPlain : String → Type 0
AllPlain [] = Unit
AllPlain (c ∷ s) = (is_plain (code c) ≡ true) × AllPlain s

-- At least one of them.
abbrev pub SomePlain : String → Type 0
SomePlain [] = ⊥
SomePlain (c ∷ s) = (is_plain (code c) ≡ true) × AllPlain s

plain_rest_iff : (s : String) → (plain_rest s ≡ true) ↔ AllPlain s
unfolding plain_rest
plain_rest_iff [] = ground arith
plain_rest_iff (c ∷ s) = ground (arith, plain_rest_iff s)

some_plain_iff : (s : String) → (some_plain s ≡ true) ↔ SomePlain s
unfolding some_plain
some_plain_iff [] = ground arith
some_plain_iff (c ∷ s) = ground (arith, plain_rest_iff s)

-- A host and a dot, and what is behind it.
abbrev HostDot : String → Type 0
HostDot s =
    (host : String) × (end : String) × (s ≡ host ++ ("." ++ end)) × AllPlain host × SomePlain end

and_parts : (a b : Bool) → (a && b) ≡ true → (a ≡ true) × (b ≡ true)
and_parts a b h = ground arith

not-true : (a : Bool) → not a ≡ true → a ≡ false
not-true a h = ground arith

plain_ne_at : (n : ℕ) → is_plain n ≡ true → (n == b'@') ≡ false
unfolding is_plain
plain_ne_at n h = not-true (n == b'@') (and_parts (not (is_space n)) (not (n == b'@')) h).1

dot_path : (c : Char) → (code c == b'.') ≡ true → c ≡ "."
dot_path c h = Char-path c "." (ground arith)

at_path : (c : Char) → (code c == b'@') ≡ true → c ≡ "@"
at_path c h = Char-path c "@" (ground arith)

literal-append : (c : Char) (s : String) → (c ∷ []) ++ s ≡ c ∷ s
literal-append c s = cons-append c [] s ∙ ap (λ t. c ∷ t) (nil-append s)

-- `c ∷ s`, cut behind its front.
cut_cons : (c : Char) (s front back : String) → s ≡ front ++ back → c ∷ s ≡ (c ∷ front) ++ back
cut_cons c s front back e = ap (λ t. c ∷ t) e ∙ sym (cons-append c front back)

HostDot-here : (c : Char) (s : String) → c ≡ "." → SomePlain s → HostDot (c ∷ s)
HostDot-here c s dot q =
    ([], s, sym (nil-append ("." ++ s) ∙ literal-append "." s ∙ ap (λ d. d ∷ s) (sym dot)), tt, q)

HostDot-cons : (c : Char) (s : String) → is_plain (code c) ≡ true → HostDot s → HostDot (c ∷ s)
HostDot-cons c s d (host, end, e, p, q) =
    (c ∷ host, end, cut_cons c s host ("." ++ end) e, (d, p), q)

after_host_sound : (s : String) → after_host s ≡ true → HostDot s
unfolding after_host
after_host_sound [] h = cc
after_host_sound (c ∷ s) h = elim (Bool-cases (code c == b'.' && some_plain s)) [
  | inl here ↦
      let (dot, rest) = and_parts (code c == b'.') (some_plain s) here in
      HostDot-here c s (dot_path c dot) ((some_plain_iff s).0 rest)
  | inr later ↦
      let (d, rest) = and_parts (is_plain (code c)) (after_host s) (rw later at h) in
      HostDot-cons c s d (after_host_sound s rest)
]

after_host_complete :
    (host end : String) → AllPlain host → SomePlain end → after_host (host ++ ("." ++ end)) ≡ true
unfolding after_host
after_host_complete [] end p q =
    rw (nil-append, cons-append, nil-append) (ground (arith, some_plain_iff end))
after_host_complete (c ∷ host) end (d, p) q =
    rw cons-append (ground (arith, after_host_complete host end p q))

-- The shape of a domain: at least one plain character, a dot and at least one more.
abbrev pub IsDomain : String → Type 0
IsDomain s =
    (host : String) × (end : String) × (s ≡ host ++ ("." ++ end)) × SomePlain host × SomePlain end

IsDomain-cons : (c : Char) (s : String) → is_plain (code c) ≡ true → HostDot s → IsDomain (c ∷ s)
IsDomain-cons c s d (host, end, e, p, q) =
    (c ∷ host, end, cut_cons c s host ("." ++ end) e, (d, p), q)

is_domain_sound : (s : String) → is_domain s ≡ true → IsDomain s
unfolding is_domain
is_domain_sound [] h = cc
is_domain_sound (c ∷ s) h = IsDomain-cons c s (ground arith) (after_host_sound s (ground arith))

is_domain_complete :
    (host end : String) → SomePlain host → SomePlain end → is_domain (host ++ ("." ++ end)) ≡ true
unfolding is_domain
is_domain_complete [] end p q = absurd p
is_domain_complete (c ∷ host) end (d, p) q =
    rw cons-append (ground (arith, after_host_complete host end p q))

abbrev LocalAt : String → Type 0
LocalAt s =
    (local : String) × (domain : String) × (s ≡ local ++ ("@" ++ domain))
    × AllPlain local
    × (is_domain domain ≡ true)

LocalAt-here : (c : Char) (s : String) → c ≡ "@" → is_domain s ≡ true → LocalAt (c ∷ s)
LocalAt-here c s at q =
    ([], s, sym (nil-append ("@" ++ s) ∙ literal-append "@" s ∙ ap (λ d. d ∷ s) (sym at)), tt, q)

LocalAt-cons : (c : Char) (s : String) → is_plain (code c) ≡ true → LocalAt s → LocalAt (c ∷ s)
LocalAt-cons c s d (local, domain, e, p, q) =
    (c ∷ local, domain, cut_cons c s local ("@" ++ domain) e, (d, p), q)

after_local_sound : (s : String) → after_local s ≡ true → LocalAt s
unfolding after_local
after_local_sound [] h = cc
after_local_sound (c ∷ s) h = elim (Bool-cases (code c == b'@')) [
  | inl here ↦ LocalAt-here c s (at_path c here) (rw here at h)
  | inr later ↦
      let (d, rest) = and_parts (is_plain (code c)) (after_local s) (rw later at h) in
      LocalAt-cons c s d (after_local_sound s rest)
]

after_local_complete :
    (local domain : String)
    → AllPlain local
    → is_domain domain ≡ true
    → after_local (local ++ ("@" ++ domain)) ≡ true
unfolding after_local
after_local_complete [] domain p q = rw (nil-append, cons-append, nil-append) q
after_local_complete (c ∷ local) domain (d, p) q =
    rw (cons-append, plain_ne_at (code c) d, d) (after_local_complete local domain p q)

-- An address as `validateEmail` describes it: a local part, an at sign, a host, a dot and an end,
-- none of them empty, and none with white space or a further at sign.
abbrev pub IsEmail : String → Type 0
IsEmail s =
    (local : String) × (host : String) × (end : String) × (s
      ≡ local ++ ("@" ++ (host ++ ("." ++ end))))
    × SomePlain local
    × SomePlain host
    × SomePlain end

IsEmail-cons :
    (c : Char) (s : String)
    → is_plain (code c) ≡ true
    → (l : LocalAt s) → IsDomain l.1
    → IsEmail (c ∷ s)
IsEmail-cons c s d (local, domain, e, p, q) (host, end, f, u, v) = (
  c ∷ local,
  host,
  end,
  cut_cons c s local ("@" ++ (host ++ ("." ++ end))) (e ∙ ap (λ t. local ++ ("@" ++ t)) f),
  (d, p),
  u,
  v,
)

validate_email_sound : (s : String) → validate_email s ≡ true → IsEmail s
unfolding validate_email
validate_email_sound [] h = cc
validate_email_sound (c ∷ s) h =
    let (d, rest) = and_parts (is_plain (code c)) (after_local s) h in
    let l = after_local_sound s rest in IsEmail-cons c s d l (is_domain_sound l.1 l.4)

validate_email_complete :
    (local host end : String)
    → SomePlain local
    → SomePlain host
    → SomePlain end
    → validate_email (local ++ ("@" ++ (host ++ ("." ++ end)))) ≡ true
unfolding validate_email
validate_email_complete [] host end p u v = absurd p
validate_email_complete (c ∷ local) host end (d, p) u v = rw cons-append (
    ground (
      arith,
      after_local_complete local (host ++ ("." ++ end)) p (is_domain_complete host end u v),
    ))

-- `validateEmail` accepts exactly the texts that can be cut into such parts.
pub validate_email_iff : (s : String) → (validate_email s ≡ true) ↔ IsEmail s
validate_email_iff s = (
  validate_email_sound s,
  λ (local, host, end, e, p, u, v). rw e (validate_email_complete local host end p u v),
)
