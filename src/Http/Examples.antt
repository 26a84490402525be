-- ===== src/Http/Examples.antt =====
-- A request, a reply that redirects, and texts.
use zapret.Base.{ℕ, ◌≡◌, refl, List, [], ◌∷◌, some, Bool, true, false, arith, ◌↔◌, In}
use zapret.Base.Sort.{sort, sort-In, sort-SortedBy}
use zapret.Memory.Safe.{Returns}
use zapret.Tls.{copy_host, copy_lower, tolower}
use zapret.Tls.Hello.{Fits}
use zapret.Strings.{toupper, case_eq, mem_eq, search_case, strncasestr, parse_hex_str, str_eq}
use zapret.Strings.Search.{FirstIn, strncasestr-FirstIn}
use zapret.Strings.Hex.{hex_str, parse_hex_str-hex_str}
use zapret.Position.{
  host_endsld, host_sld, http_method, host, pos, negsuc, find_nld, up, nld_at, back,
}
use zapret.Position.Bounds.{Within}
use zapret.Http.{
  http_method_of, method_in, is_http, skip_while, skip_blanks, skip_word, is_version, after_method,
  after_check, find_host_in, host_header, http_extract_header, extract_at, extract_value,
  is_http_reply, reply_code_is, reply_code_raised,
}
use zapret.Http.Header.{find_host_in-strncasestr, http_extract_header-Fits}
use zapret.Http.Redirect.{
  http_reply_looks_like_dpi_redirect, before, after_prefix, or_https, redirect_host, same_text,
  domain_from, second_level, is_foreign, redirects_away, location_away,
}
use zapret.Http.Pos.{http_pos, http_req, resolve_multi_pos}
use zapret.Http.Resolve.{http_pos-Returns}
use zapret.Http.Multi.{Rises, Resolves, resolve_multi_pos-Rises}

-- "GET /x HTTP/1.1\r\nhost: www.ex.org\r\n\r\n"
abbrev request : List ℕ
request =
    71 ∷ 69 ∷ 84 ∷ 32 ∷ 47 ∷ 120 ∷ 32 ∷ 72 ∷ 84 ∷ 84 ∷ 80 ∷ 47 ∷ 49 ∷ 46 ∷ 49 ∷ 13 ∷ 10 ∷ 104 ∷ 111
    ∷ 115 ∷ 116 ∷ 58 ∷ 32 ∷ 119 ∷ 119 ∷ 119 ∷ 46 ∷ 101 ∷ 120 ∷ 46 ∷ 111 ∷ 114 ∷ 103 ∷ 13 ∷ 10 ∷ 13
    ∷ 10 ∷ []

-- "HTTP/1.1 302 F\r\nLocation: http://ban.net/x\r\n\r\n"
abbrev reply : List ℕ
reply =
    72 ∷ 84 ∷ 84 ∷ 80 ∷ 47 ∷ 49 ∷ 46 ∷ 49 ∷ 32 ∷ 51 ∷ 48 ∷ 50 ∷ 32 ∷ 70 ∷ 13 ∷ 10 ∷ 76 ∷ 111 ∷ 99
    ∷ 97 ∷ 116 ∷ 105 ∷ 111 ∷ 110 ∷ 58 ∷ 32 ∷ 104 ∷ 116 ∷ 116 ∷ 112 ∷ 58 ∷ 47 ∷ 47 ∷ 98 ∷ 97 ∷ 110
    ∷ 46 ∷ 110 ∷ 101 ∷ 116 ∷ 47 ∷ 120 ∷ 13 ∷ 10 ∷ 13 ∷ 10 ∷ []

accepts_request : is_http request 0 37 ≡ some true
unfolding is_http http_method_of method_in mem_eq skip_while skip_blanks skip_word is_version
    after_method after_check
accepts_request = refl

-- The host of the request, in lower case, with its final zero.
extracts_host :
    http_extract_header request 0 37 host_header 20
    ≡ some (some (119 ∷ 119 ∷ 119 ∷ 46 ∷ 101 ∷ 120 ∷ 46 ∷ 111 ∷ 114 ∷ 103 ∷ 0 ∷ []))
unfolding http_extract_header extract_at extract_value strncasestr search_case case_eq toupper
    skip_while copy_host copy_lower tolower
extracts_host = refl

-- A redirect to ban.net, for www.ex.org and for a.Ban.net.
redirects_away_from :
    http_reply_looks_like_dpi_redirect reply 0 46
      (119 ∷ 119 ∷ 119 ∷ 46 ∷ 101 ∷ 120 ∷ 46 ∷ 111 ∷ 114 ∷ 103 ∷ [])
    ≡ some true
unfolding http_reply_looks_like_dpi_redirect is_http_reply reply_code_is reply_code_raised mem_eq
    http_extract_header extract_at extract_value strncasestr search_case case_eq toupper skip_while
    copy_host copy_lower tolower before after_prefix or_https redirect_host same_text domain_from
    second_level is_foreign redirects_away location_away find_nld up nld_at back str_eq
redirects_away_from = refl

stays_in_domain :
    http_reply_looks_like_dpi_redirect reply 0 46
      (97 ∷ 46 ∷ 66 ∷ 97 ∷ 110 ∷ 46 ∷ 110 ∷ 101 ∷ 116 ∷ [])
    ≡ some false
unfolding http_reply_looks_like_dpi_redirect is_http_reply reply_code_is reply_code_raised mem_eq
    http_extract_header extract_at extract_value strncasestr search_case case_eq toupper skip_while
    copy_host copy_lower tolower before after_prefix or_https redirect_host same_text domain_from
    second_level is_foreign redirects_away location_away find_nld up nld_at back str_eq
stays_in_domain = refl

strncasestr-FirstIn_example :
    Returns (FirstIn request 0 37 host_header) (strncasestr request 0 host_header 37)
strncasestr-FirstIn_example = strncasestr-FirstIn request 0 37 10 _ (omega arith)

parse_hex_str-hex_str_example :
    ◌≡◌ {A = List ℕ × Bool}
      (parse_hex_str (hex_str (0 ∷ 171 ∷ 255 ∷ [])) 4)
      (0 ∷ 171 ∷ 255 ∷ [], true)
parse_hex_str-hex_str_example =
    parse_hex_str-hex_str (0 ∷ 171 ∷ 255 ∷ []) 4 (omega arith, (omega arith, (omega arith, tt)))
      (omega arith)

find_host_in-strncasestr_example : find_host_in request 0 37 ≡ strncasestr request 0 host_header 37
find_host_in-strncasestr_example = find_host_in-strncasestr request 0 37 (omega arith)

http_extract_header-Fits_example : Returns (Fits 5) (http_extract_header request 0 37 host_header 5)
http_extract_header-Fits_example = http_extract_header-Fits request 0 37 10 _ 5 (omega arith)

http_pos-Returns_example : Returns (Within 37) (http_pos host_endsld (negsuc 0) request 0 37)
http_pos-Returns_example = http_pos-Returns host_endsld (negsuc 0) request 0 37 (omega arith)

resolve_multi_pos-Rises_example :
    Returns
      (λ (r : List ℕ).
        Rises r
        × ((a : ℕ)
            → In a r
              ↔ Resolves http_req request 0 37
                  ((host_sld, pos 1) ∷ (http_method, pos 2) ∷ (host, pos 5) ∷ [])
                  a))
      (resolve_multi_pos
        (sort (λ n. n))
        http_req
        request
        0
        37
        ((host_sld, pos 1) ∷ (http_method, pos 2) ∷ (host, pos 5) ∷ []))
resolve_multi_pos-Rises_example =
    resolve_multi_pos-Rises (sort (λ n. n)) (sort-SortedBy (λ n. n)) (sort-In (λ n. n)) http_req
      request 0 37 ((host_sld, pos 1) ∷ (http_method, pos 2) ∷ (host, pos 5) ∷ []) (omega arith)
