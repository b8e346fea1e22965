-- ===== src/Tests/Guests.antt =====
-- Tests of the guest side of the checkout: signed references, guest contacts and the request to look
-- again.
use valuecrm.Base.{
  ℕ, ◌≡◌, refl, beq_refl, ◌-◌, String, none, some, ◌==◌, string_eq, leb, if◌then◌else◌,
}
use valuecrm.Model.Status.{AttemptStatus}
use valuecrm.Exec.{err, tara, TaraError, maybe, gets, raise, ◌>>=◌}
use valuecrm.Tara.{get_client}
use valuecrm.Checkout.Tokens.{Signing, loaded, signature_expired, bad_signature}
use valuecrm.Checkout.Tokens.Opened.{IsSigning, Opened, resolve-Opened}
use valuecrm.Checkout.Guests.{
  resolve_guest_contact, request_status_refresh, refresh_attempt, swallow,
}
use valuecrm.Checkout.Guests.Resolved.{Resolved, resolve_guest-Resolved}
use valuecrm.Table.{get, select}
use valuecrm.Tests.Data.{texts, shop, shop_db, order}

-- A signature that is what it signs.
abbrev plain : Signing (String × ℕ × ℕ)
plain = record {
  reference = λ k. k;
  dumps = λ salt reference n. (salt, reference, n);
  loads = λ salt token age m.
      if salt == token.0
      then (if leb (m - token.2) age then loaded (some token.1) else signature_expired)
      else bad_signature;
}

plain-IsSigning : IsSigning plain
plain-IsSigning = record {
  same_salt = λ salt reference age n m. rw (beq_refl salt) refl;
  other_salt = λ salt salt' reference age n m other. rw other refl;
  unique = λ j k. refl;
}

resolve-Opened_example : Opened plain 1 20 (shop_db AttemptStatus.pending)
unfolding get
resolve-Opened_example =
    resolve-Opened plain plain-IsSigning 1 20 order (shop_db AttemptStatus.pending) refl

resolve_guest-Resolved_example :
    Resolved texts
      (some "new@b.c")
      (shop_db AttemptStatus.pending)
      (resolve_guest_contact texts (some "new@b.c") none "N" "C" (shop_db AttemptStatus.pending))
unfolding get
resolve_guest-Resolved_example =
    resolve_guest-Resolved texts (some "new@b.c") none "N" "C" (shop_db AttemptStatus.pending)
      (refl, tt)

-- Tara refuses the credentials.
refresh_unauthorized :
    request_status_refresh
      (shop "SUCCESS")
      (λ c p. err (tara TaraError.auth))
      1
      (shop_db AttemptStatus.pending)
    ≡ (err (tara TaraError.auth), shop_db AttemptStatus.pending)
unfolding request_status_refresh refresh_attempt swallow maybe gets raise select get_client ◌>>=◌
refresh_unauthorized = refl
