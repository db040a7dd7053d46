-- ===== src/Remote/Requests.antt =====
-- One request of the client, and what the provider makes of it.
use portable_smb_server.Base.{
  Bool, false, Option, some, ◌≡◌, ◌∙◌, ap, list_eq, list_eq_refl, if◌then◌else◌, arith,
}
use portable_smb_server.Wire.{Bytes}
use portable_smb_server.Packet.Utf16.{Str}
use portable_smb_server.Packet.Filetime.{Time}
use portable_smb_server.Fsx.{Error, FileSystem}
use portable_smb_server.Http.{Json, Body, Request, Response, answer}
use portable_smb_server.Provider
use portable_smb_server.Provider.{Options, handler, route, write_gate, fail_status}
use portable_smb_server.HttpVfs.Errors.{received, check_resp-fail_status}
use portable_smb_server.HttpVfs.Client.{Send, refusal}

-- a provider as the HTTP client meets it
abbrev pub answered : {W : Type 0} → (W → Request → W × Response) → Send W
answered h w r = let (w1, a) = h w r in (w1, answer a.status a.body)

pub refusal-fail_status :
    (c : Bool) (e : Error) (b : Body) → refusal c (answer (fail_status e) b) ≡ some (received e c)
unfolding refusal
refusal-fail_status c e b = (check_resp-fail_status e c).0

module _ {W H : Type 0} (fs : FileSystem W H) (opt : Options) (encode : Json → Bytes)
    (decode : Bytes → Option Json) (parse_time : Str → Option Time) where
  pub handler-route :
      (w : W) (r : Request)
      → r.token ≡ opt.token
      → handler fs opt encode decode parse_time w r
        ≡ route fs opt encode decode parse_time r.endpoint r.method w r
  unfolding handler
  handler-route w r e = ground (arith, e, list_eq_refl opt.token, ap (λ t. list_eq t opt.token) e)

  -- a request for a change, to a provider that takes changes
  pub handler-write_gate :
      (h : W → Request → W × Response) (w : W) (r : Request)
      → route fs opt encode decode parse_time r.endpoint r.method
        ≡ write_gate fs opt encode decode parse_time h
      → r.token ≡ opt.token
      → opt.read_only ≡ false
      → handler fs opt encode decode parse_time w r ≡ h w r
  unfolding write_gate
  handler-write_gate h w r q t e =
      handler-route w r t
      ∙ ap (λ f. f w r) q
      ∙ ap (λ b. if b then (w, Provider.write_err fs opt encode decode parse_time 403) else h w r) e
