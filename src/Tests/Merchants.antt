-- ===== src/Tests/Merchants.antt =====
-- packages/core/src/merchant.ts on sample domains and assertions.
use waysafe.Prelude.{◌≡◌, refl, some, txt}
use waysafe.Merchant.Domain.{normalize_domain}

normalize_url_test :
    normalize_domain (txt "https://User@WWW.Staples.com:8080/deals?x=1") ≡ some (txt "staples.com")
unfolding normalize_domain
normalize_url_test = refl
