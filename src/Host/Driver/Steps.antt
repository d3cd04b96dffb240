-- ===== src/Host/Driver/Steps.antt =====
-- The first statement of an operation of Device in extras/driver/src/Device.cpp, when what it does is known.
use arduino_driver.Prelude.{ℕ, ◌≡◌, ap, Bool, true, false, not, List, if◌then◌else◌}
use arduino_driver.Protocol.Errors.{DriverError, Result, ok, err, device_busy, not_supported}
use arduino_driver.Protocol.Features.{has_events}
use arduino_driver.Protocol.Request.{Request}
use arduino_driver.Host.Driver.{
  Driver, Options, Call, read, raw, check_not_streaming, require_events,
}
use arduino_driver.Host.Exec.{Exec, continue, lift, require, ◌>>=◌, ◌>>◌}
use arduino_driver.Host.Transfers.{Transport, read_in, raw_in}

module _ {S A : Type 0} where
  pub require-bind :
      (e : DriverError) (test : Bool) (m : Exec S A) (s : S)
      → test ≡ true
      → (require e test >> m) s ≡ m s
  require-bind e test m s h =
      ap (λ (x : Bool). continue (λ done. m) (if x then ok tt else err e) s) h

  pub lift-bind :
      {B : Type 0} (r : Result B) (f : B → Exec S A) (b : B) (s : S)
      → r ≡ ok b
      → (lift r >>= f) s ≡ f b s
  lift-bind r f b s h = ap (λ x. continue f x s) h

module _ {A : Type 0} (t : Transport) (o : Options) (d : Driver t.Link) where
  pub idle-bind : (m : Call t o A) → d.streaming ≡ false → (check_not_streaming >> m) d ≡ m d
  unfolding check_not_streaming
  idle-bind m h =
      ap (λ (x : Bool). continue (λ done. m) (if not x then ok tt else err device_busy) d) h

  pub events-bind : (m : Call t o A) → has_events d.info ≡ true → (require_events >> m) d ≡ m d
  unfolding require_events
  events-bind m h =
      ap (λ (x : Bool). continue (λ done. m) (if x then ok tt else err not_supported) d) h

  pub read-bind :
      (request : Request) (index len min_len : ℕ) (f : ℕ × List ℕ → Call t o A) (reply : ℕ × List ℕ)
      (after : t.Link)
      → read_in t o.busy_max_attempts request index len min_len d.link ≡ (ok reply, after)
      → (read t o request index len min_len >>= f) d ≡ f reply (record d { link = after })
  read-bind request index len min_len f reply after h =
      ap (λ (s : Result (ℕ × List ℕ) × t.Link). continue f (s.0) (record d { link = s.1 })) h

  pub raw-bind :
      (request : Request) (index len : ℕ) (f : ℕ × List ℕ → Call t o A) (reply : ℕ × List ℕ)
      (after : t.Link)
      → raw_in t request index len d.link ≡ (ok reply, after)
      → (raw t o request index len >>= f) d ≡ f reply (record d { link = after })
  raw-bind request index len f reply after h =
      ap (λ (s : Result (ℕ × List ℕ) × t.Link). continue f (s.0) (record d { link = s.1 })) h
