-- ===== src/Node/Tests/Services.antt =====
-- Functions that behave as the crates of the user API are documented to.
use Prim.Native.Char.{Char, code}
use mathlib.Core.Option.{some-injective}
use da_concept.Base.{
  ℕ, zero, suc, ◌+◌, ◌*◌, ◌≡◌, refl, String, Option, none, some, List, [], ◌∷◌, str_eq, eq_iff, leb,
  ◌==◌, sym, ap, ◌∙◌, true, if◌then◌else◌, arith,
}
use da_concept.Node.UserApi.Types.{Claims}
use da_concept.Node.UserApi.Web.{Web, IsSound}
use da_concept.Node.Tests.Sample.{env}

-- Numbers as a text: each in unary and with a stop at its end.
unfoldable pub ones : ℕ → String → String
ones zero s = String.◌∷◌ (Char.char b'.' tt) s
ones (suc n) s = String.◌∷◌ (Char.char b'1' tt) (ones n s)

unfoldable pub write : List ℕ → String
unfolding ones
write [] = ""
write (n ∷ ns) = ones n (write ns)

unfoldable pub one_more : List ℕ → List ℕ
one_more [] = []
one_more (n ∷ ns) = suc n ∷ ns

unfoldable pub read : String → List ℕ
unfolding one_more
read String.[] = []
read (String.◌∷◌ c s) = let ns = read s in if code c == b'.' then 0 ∷ ns else one_more ns

read-ones : (n : ℕ) (s : String) → read (ones n s) ≡ n ∷ read s
unfolding read ones one_more
read-ones zero s = refl
read-ones (suc n) s = rw (read-ones n s) refl

pub read-write : (ns : List ℕ) → read (write ns) ≡ ns
unfolding write read
read-write [] = refl
read-write (n ∷ ns) = rw (read-ones n (write ns), read-write ns) refl

abbrev claims_of_list : List ℕ → Option Claims
claims_of_list (sub ∷ exp ∷ iat ∷ []) = some (record { sub = sub; exp = exp; iat = iat })
claims_of_list _ = none

abbrev unless_expired : ℕ → Option Claims → Option Claims
unless_expired now none = none
unless_expired now (some claims) = if leb now claims.exp then some claims else none

abbrev pub web : Web
web = record {
  new_v4 = λ n. n + 50;
  hash_password = λ password salt. some password;
  is_hash = λ hash. true;
  verify_password = λ password hash. str_eq password hash;
  add_days = λ now days. now + days * 86400;
  timestamp = λ now. now;
  encode_jwt = λ secret claims. some (write (claims.sub ∷ claims.exp ∷ claims.iat ∷ []));
  decode_jwt = λ now secret token. unless_expired now (claims_of_list (read token));
}

pub web-IsSound : IsSound env web
web-IsSound = record {
  decode-bind = λ id. refl;
  verify-hash = λ password hash salt e. (refl, (eq_iff password hash).1 (some-injective _ _ e));
  decode-encode = λ now secret token claims e valid.
      let numbers : List ℕ = claims.sub ∷ claims.exp ∷ claims.iat ∷ [] in
      let reads : read token ≡ numbers =
        ap read (sym (some-injective _ _ e)) ∙ read-write numbers in
      let fits : leb now claims.exp ≡ true = ground arith in rw (reads, fits) refl;
  timestamp-add_days = λ now days. refl;
}
