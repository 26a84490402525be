-- ===== src/Datagrams/Bounds.antt =====
-- The tests read only the message.
use zapret.Base.{
  ℕ, zero, suc, ◌+◌, ◌-◌, ◌≤◌, ◌<◌, ◌≡◌, refl, List, Option, some, Bool, true, false, leb, ◌==◌,
  arith, length,
}
use zapret.Memory.{◌&&?◌, ◌||?◌, minus64}
use zapret.Memory.Safe.{
  Returns, Any, bind-Returns, branch-Returns, and-Any, and_Any-Returns, byte_is-Returns,
  word_is-Returns, pntoh32-Returns,
}
use zapret.Bytes.{pntoh32}
use zapret.Strings.{mem_eq}
use zapret.Strings.Search.{mem_eq-Returns}
use zapret.Datagrams.{
  dword_is, stream_tag, xml_tag, mem_in, memmem, is_xmpp_stream, is_dns_query, is_dns_response,
  dht_key, is_dht, zeros, is_discord_ip_discovery_request, is_stun_message, version_is,
}

pub or-Any : (a b : Option Bool) → Returns Any a → Returns Any b → Returns Any (a ||? b)
or-Any a b ra rb =
    bind-Returns Any Any a _ ra
      (λ t _ _. branch-Returns Any t _ _ (λ _. (true, refl, tt)) (λ _. rb))

dword_is-Returns :
    (d : List ℕ) (p : ℕ) (test : ℕ → Bool) → p + 3 < length d → Returns Any (dword_is d p test)
dword_is-Returns d p test h =
    bind-Returns Any Any (pntoh32 d p) _ (pntoh32-Returns d p h) (λ v _ _. (test v, refl, tt))

mem_in-Returns :
    (room : ℕ) (d : List ℕ) (p : ℕ) (text : List ℕ)
    → p + room + length text ≤ length d + 1
    → Returns Any (mem_in room d p text)
unfolding mem_in
mem_in-Returns zero d p text h = (false, refl, tt)
mem_in-Returns (suc room) d p text h =
    bind-Returns Any Any (mem_eq d p text) _ (mem_eq-Returns d p text (omega arith)) (λ here _ _.
      branch-Returns Any here _ _ (λ _. (true, refl, tt))
        (λ _. mem_in-Returns room d (p + 1) text (omega arith)))

memmem-Returns :
    (d : List ℕ) (p len : ℕ) (text : List ℕ)
    → length text ≤ len
    → p + len ≤ length d
    → Returns Any (memmem d p len text)
unfolding memmem
memmem-Returns d p len text long fits =
    mem_in-Returns (len + 1 - length text) d p text (omega arith)

-- A text behind a check of the length.
pub tag-Returns :
    (d : List ℕ) (p len n q : ℕ) (text : List ℕ)
    → p + len ≤ length d
    → q + length text ≤ p + n
    → Returns Any (some (leb n len) &&? mem_eq d q text)
tag-Returns d p len n q text fits room =
    and_Any-Returns (leb n len) _
      (λ h. let long : n ≤ len = ground arith in mem_eq-Returns d q text (omega arith))

-- The tests of XMPP and BitTorrent.
pub is_xmpp_stream-Returns :
    (d : List ℕ) (p len : ℕ) → p + len ≤ length d → Returns Any (is_xmpp_stream d p len)
unfolding is_xmpp_stream
is_xmpp_stream-Returns d p len fits =
    or-Any _ _ (tag-Returns d p len 16 p stream_tag fits (omega arith)) (
      and_Any-Returns (leb 36 len) _ (λ h.
        let long : 36 ≤ len = ground arith in
        let rest : minus64 len 21 ≡ len - 21 = ground arith in
        and-Any _ _ (mem_eq-Returns d p xml_tag (omega arith))
          (rw rest (memmem-Returns d (p + 21) (len - 21) stream_tag (omega arith) (omega arith)))))

-- A number behind a check of the length.
pub dword-Returns :
    (d : List ℕ) (p len : ℕ) (guard : Bool) (test : ℕ → Bool)
    → p + len ≤ length d
    → (guard ≡ true → 4 ≤ len)
    → Returns Any (some guard &&? dword_is d p test)
dword-Returns d p len guard test fits room =
    and_Any-Returns guard _
      (λ h. let long : 4 ≤ len = room h in dword_is-Returns d p test (omega arith))

pub is_dns_query-Returns :
    (d : List ℕ) (p len : ℕ) → p + len ≤ length d → Returns Any (is_dns_query d p len)
unfolding is_dns_query
is_dns_query-Returns d p len fits = and_Any-Returns (leb 12 len) _ (λ h.
    let long : 12 ≤ len = ground arith in
    and-Any _ _ (byte_is-Returns d (p + 2) _ (omega arith)) (
      and-Any _ _ (mem_eq-Returns d (p + 4) _ (omega arith))
        (word_is-Returns d (p + 10) _ (omega arith))))

pub is_dns_response-Returns :
    (d : List ℕ) (p len : ℕ) → p + len ≤ length d → Returns Any (is_dns_response d p len)
unfolding is_dns_response
is_dns_response-Returns d p len fits = and_Any-Returns (leb 12 len) _ (λ h.
    let long : 12 ≤ len = ground arith in
    and-Any _ _ (byte_is-Returns d (p + 2) _ (omega arith)) (
      and-Any _ _ (word_is-Returns d (p + 4) _ (omega arith)) (
        and-Any _ _ (word_is-Returns d (p + 6) _ (omega arith)) (
          and-Any _ _ (word_is-Returns d (p + 8) _ (omega arith))
            (word_is-Returns d (p + 10) _ (omega arith))))))

dht_key-Returns : (d : List ℕ) (p a b c : ℕ) → p + 4 < length d → Returns Any (dht_key d p a b c)
unfolding dht_key
dht_key-Returns d p a b c h =
    and-Any _ _ (byte_is-Returns d (p + 1) _ (omega arith))
      (and-Any _ _ (byte_is-Returns d (p + 3) _ (omega arith)) (byte_is-Returns d (p + 4) _ h))

pub is_dht-Returns : (d : List ℕ) (p len : ℕ) → p + len ≤ length d → Returns Any (is_dht d p len)
unfolding is_dht
is_dht-Returns d p len fits = and_Any-Returns (leb 5 len) _ (λ h.
    let long : 5 ≤ len = ground arith in
    let key = λ (a b c : ℕ). dht_key-Returns d p a b c (omega arith) in
    and-Any _ _ (byte_is-Returns d p _ (omega arith)) (
      and-Any _ _ (byte_is-Returns d (p + 2) _ (omega arith)) (
        and-Any _ _ (byte_is-Returns d (p + (len - 1)) _ (omega arith)) (
          or-Any _ _ (key 49 97 100)
            (or-Any _ _ (key 49 114 100) (or-Any _ _ (key 50 105 112) (key 49 101 108)))))))

pub is_discord-Returns :
    (d : List ℕ) (p len : ℕ)
    → p + len ≤ length d
    → Returns Any (is_discord_ip_discovery_request d p len)
unfolding is_discord_ip_discovery_request
is_discord-Returns d p len fits = and_Any-Returns (len == 74) _ (λ h.
    let long : len ≡ 74 = ground arith in
    and-Any _ _ (byte_is-Returns d p _ (omega arith)) (
      and-Any _ _ (byte_is-Returns d (p + 1) _ (omega arith)) (
        and-Any _ _ (byte_is-Returns d (p + 2) _ (omega arith)) (
          and-Any _ _ (byte_is-Returns d (p + 3) _ (omega arith))
            (mem_eq-Returns d (p + 8) (zeros 64) (omega arith))))))

pub is_stun_message-Returns :
    (d : List ℕ) (p len : ℕ) → p + len ≤ length d → Returns Any (is_stun_message d p len)
unfolding is_stun_message
is_stun_message-Returns d p len fits = and_Any-Returns (leb 20 len) _ (λ h.
    let long : 20 ≤ len = ground arith in
    and-Any _ _ (byte_is-Returns d p _ (omega arith)) (
      and-Any _ _ (byte_is-Returns d (p + 3) _ (omega arith)) (
        and-Any _ _ (dword_is-Returns d (p + 4) _ (omega arith))
          (word_is-Returns d (p + 2) _ (omega arith)))))

pub version_is-Returns :
    (d : List ℕ) (p a b : ℕ) → p + 2 < length d → Returns Any (version_is d p a b)
unfolding version_is
version_is-Returns d p a b h =
    and-Any _ _ (byte_is-Returns d (p + 1) _ (omega arith)) (byte_is-Returns d (p + 2) _ h)
