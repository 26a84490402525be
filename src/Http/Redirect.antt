-- ===== src/Http/Redirect.antt =====
-- nfq2/protocol.c, `HttpReplyLooksLikeDPIRedirect`: a reply that sends to another domain.
use zapret.Base.{
  ℕ, ◌+◌, ◌<◌, ◌≤◌, ◌≡◌, refl, List, [], ◌∷◌, ◌++◌, Option, none, some, Bool, true, false, not, ltb,
  ◌==◌, if◌then◌else◌, arith, get_elem?, length, drop, map, length-append,
}
use zapret.Memory.{◌>>=◌, ◌&&?◌, ◌||?◌}
use zapret.Memory.Safe.{
  Returns, Any, bind-Returns, branch-Returns, get_elem?-Returns, weaken-Returns, and-Returns,
  test-Returns, byte_is-Returns, and-Any,
}
use zapret.Tls.{tolower}
use zapret.Tls.Hello.{Fits}
use zapret.Strings.{str_eq, mem_eq}
use zapret.Strings.Search.{mem_eq-Returns}
use zapret.Position.{find_nld}
use zapret.Position.Bounds.{find_nld-Returns}
use zapret.Http.{is_http_reply, reply_code_is, reply_code_raised, http_extract_header, http_1}
use zapret.Http.Header.{http_extract_header-Fits}

-- The bytes before the first that ends them: the C string in a buffer, and a host in an address.
unfoldable pub before : (ℕ → Bool) → List ℕ → List ℕ
before ends [] = []
before ends (b ∷ bs) = let rest = before ends bs in if ends b then [] else b ∷ rest

-- `strncmp(loc, prefix, n)` and `loc + n`: what follows the prefix.
unfoldable pub after_prefix : List ℕ → List ℕ → Option (List ℕ)
after_prefix [] loc = some loc
after_prefix (c ∷ cs) [] = none
after_prefix (c ∷ cs) (b ∷ bs) = let rest = after_prefix cs bs in if b == c then rest else none

-- "http://", "https://" and "\nLocation:".
abbrev pub http_scheme : List ℕ
http_scheme = 104 ∷ 116 ∷ 116 ∷ 112 ∷ 58 ∷ 47 ∷ 47 ∷ []

abbrev pub https_scheme : List ℕ
https_scheme = 104 ∷ 116 ∷ 116 ∷ 112 ∷ 115 ∷ 58 ∷ 47 ∷ 47 ∷ []

abbrev pub location_header : List ℕ
location_header = 10 ∷ 76 ∷ 111 ∷ 99 ∷ 97 ∷ 116 ∷ 105 ∷ 111 ∷ 110 ∷ 58 ∷ []

unfoldable pub or_https : List ℕ → Option (List ℕ) → Option (List ℕ)
or_https loc (some rest) = some rest
or_https loc none = after_prefix https_scheme loc

-- The host of an address, `none` if it has neither scheme.
unfoldable pub redirect_host : List ℕ → Option (List ℕ)
redirect_host loc = do
  rest ← or_https loc (after_prefix http_scheme loc)
  some (before (λ b. b == 47) rest)

-- `!strcasecmp`.
unfoldable pub same_text : List ℕ → List ℕ → Bool
same_text a b = str_eq (map tolower a) (map tolower b)

-- The second-level domain of a C string, up to its end; the inner `none` is none.
unfoldable pub domain_from : List ℕ → Option (ℕ × ℕ) → Option (List ℕ)
domain_from name none = none
domain_from name (some (start, len)) = some (drop start name)

unfoldable pub second_level : List ℕ → Option (Option (List ℕ))
second_level name = do
  nld ← find_nld (name ++ 0 ∷ []) 0 (length name) 2
  some (domain_from name nld)

-- The comparison of the domains of the redirect and of the request.
unfoldable pub is_foreign : Option (List ℕ) → Option (List ℕ) → Bool
is_foreign none dhost = false
is_foreign (some drhost) none = true
is_foreign (some drhost) (some dhost) = not (same_text dhost drhost)

unfoldable pub redirects_away : List ℕ → Option (List ℕ) → Option Bool
redirects_away name none = some false
redirects_away name (some []) = some false
redirects_away name (some (c ∷ cs)) = do
  drhost ← second_level (c ∷ cs)
  dhost ← second_level name
  some (is_foreign drhost dhost)

unfoldable pub location_away : List ℕ → Option (List ℕ) → Option Bool
location_away name none = some false
location_away name (some loc) = redirects_away name (redirect_host (before (λ b. b == 0) loc))

-- The buffer of the location has 256 bytes. A host of no bytes also stands for NULL.
unfoldable pub http_reply_looks_like_dpi_redirect : List ℕ → ℕ → ℕ → List ℕ → Option Bool
http_reply_looks_like_dpi_redirect d p len [] = some false
http_reply_looks_like_dpi_redirect d p len (h ∷ hs) = do
  is_redirect ← is_http_reply d p len &&? (reply_code_is d p 302 ||? reply_code_is d p 307)
  if is_redirect
      then (do loc ← http_extract_header d p len location_header 256; location_away (h ∷ hs) loc)
      else some false

pub is_http_reply-Returns :
    (d : List ℕ) (p len : ℕ)
    → p + len ≤ length d
    → Returns (λ (t : Bool). t ≡ true → (14 < len) × Unit {0}) (is_http_reply d p len)
unfolding is_http_reply
is_http_reply-Returns d p len fits =
    and-Returns (14 < len) (Unit {0}) (some (ltb 14 len)) _ (test-Returns _ _ (λ e. ground arith))
      (λ long.
        weaken-Returns (λ t _ _. tt)
          (and-Any (mem_eq d p http_1) _ (mem_eq-Returns d p http_1 (omega arith)) (
            and-Any _ _ (byte_is-Returns d (p + 7) _ (omega arith)) (
              and-Any _ _ (byte_is-Returns d (p + 8) _ (omega arith)) (
                and-Any _ _ (byte_is-Returns d (p + 9) _ (omega arith)) (
                  and-Any _ _ (byte_is-Returns d (p + 10) _ (omega arith))
                    (byte_is-Returns d (p + 11) _ (omega arith))))))))

reply_code_is-Returns :
    (d : List ℕ) (p n : ℕ) → p + 11 < length d → Returns Any (reply_code_is d p n)
unfolding reply_code_is reply_code_raised
reply_code_is-Returns d p n h =
    bind-Returns Any Any _ _
      (bind-Returns Any Any (get_elem? d (p + 9)) _ (get_elem?-Returns d (p + 9) (omega arith))
        (λ a _ _.
          bind-Returns Any Any (get_elem? d (p + 10)) _ (get_elem?-Returns d (p + 10) (omega arith))
            (λ b _ _.
              bind-Returns Any Any (get_elem? d (p + 11)) _ (get_elem?-Returns d (p + 11) h)
                (λ c _ _. (_, refl, tt)))))
      (λ raised _ _. (_, refl, tt))

second_level-Returns : (name : List ℕ) → Returns Any (second_level name)
unfolding second_level
second_level-Returns name =
    let long = length-append name (0 ∷ []) in
    bind-Returns Any Any (find_nld (name ++ 0 ∷ []) 0 (length name) 2) _
      (find_nld-Returns (name ++ 0 ∷ []) 0 (length name) 2 (omega (arith, long))
        (omega (arith, long)))
      (λ nld _ _. (_, refl, tt))

redirects_away-Returns : (name : List ℕ) (o : Option (List ℕ)) → Returns Any (redirects_away name o)
unfolding redirects_away
redirects_away-Returns name none = (false, refl, tt)
redirects_away-Returns name (some []) = (false, refl, tt)
redirects_away-Returns name (some (c ∷ cs)) =
    bind-Returns Any Any (second_level (c ∷ cs)) _ (second_level-Returns (c ∷ cs)) (λ drhost _ _.
      bind-Returns Any Any (second_level name) _ (second_level-Returns name)
        (λ dhost _ _. (_, refl, tt)))

location_away-Returns : (name : List ℕ) (o : Option (List ℕ)) → Returns Any (location_away name o)
unfolding location_away
location_away-Returns name none = (false, refl, tt)
location_away-Returns name (some loc) = redirects_away-Returns name _

-- For any message of `len` bytes, all of which may be read, and any host, the test for a redirect
-- returns and reads only the message and the host.
pub redirect-Returns :
    (d : List ℕ) (p len : ℕ) (name : List ℕ)
    → p + len ≤ length d
    → Returns Any (http_reply_looks_like_dpi_redirect d p len name)
unfolding http_reply_looks_like_dpi_redirect
redirect-Returns d p len [] fits = (false, refl, tt)
redirect-Returns d p len (h ∷ hs) fits =
    bind-Returns Any Any _ _
      (bind-Returns _ Any (is_http_reply d p len) _ (is_http_reply-Returns d p len fits)
        (λ t _ long.
          branch-Returns Any t _ _
            (λ yes_reply.
              let room : 14 < len = (long yes_reply).0 in
              bind-Returns Any Any (reply_code_is d p 302) _
                (reply_code_is-Returns d p 302 (omega arith))
                (λ c _ _.
                  branch-Returns Any c _ _ (λ _. (true, refl, tt))
                    (λ _. reply_code_is-Returns d p 307 (omega arith))))
            (λ _. (false, refl, tt))))
      (λ is_redirect _ _.
        branch-Returns Any is_redirect _ _
          (λ _.
            bind-Returns (Fits 256) Any (http_extract_header d p len location_header 256) _
              (http_extract_header-Fits d p len 10 _ 256 fits)
              (λ loc _ _. location_away-Returns (h ∷ hs) loc))
          (λ _. (false, refl, tt)))
