-- ===== src/Ingest/Tailscale/Statuses.antt =====
-- What a refused request is reported as.
use taboot.Prelude.{ℕ, ◌≤◌, ◌<◌, ◌≡◌, refl, codes, true, false, ◌&&◌, leb, ltb, arith}
use taboot.Python.{ok, raised}
use taboot.Ingest.Tailscale.{DevicesResponse, Api, api_error, fetch_devices}

-- As `requests` documents them: `raise_for_status` raises for the statuses 400 to 599, and a response
-- counts as true if its status is less than 400.
pub record IsDocumented (api : Api) : Type 0 where
  pub raises : (s : ℕ) → api.raises_for s ≡ (leb 400 s && ltb s 600)
  pub truth : (s : ℕ) → api.is_true s ≡ ltb s 400

-- With `requests` as documented, every refused request is reported by the same error, whatever its
-- status: that of a wrong key, 401, and that of too many requests, 429, are not told apart.
pub fetch_devices-same_error :
    (api : Api) (response : DevicesResponse)
    → IsDocumented api
    → api.request ≡ ok response
    → 400 ≤ response.status_code
    → response.status_code < 600
    → fetch_devices api ≡ raised (api_error (codes "HTTP error fetching devices"))
unfolding fetch_devices
fetch_devices-same_error api response documented answered from below =
    let refused : api.raises_for response.status_code ≡ true =
      rw (documented.raises response.status_code) (ground arith) in
    let is_false : api.is_true response.status_code ≡ false =
      rw (documented.truth response.status_code) (ground arith) in
    rw answered (rw refused (rw is_false refl))
