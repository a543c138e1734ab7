-- ===== src/Program.antt =====
-- runCriProxy of main.go, up to Serve, and GetStreamUrl of pkg/utils/utils.go. Addresses of the node and
-- the URLs of the package url are parameters.
pub mod Start
use criproxy.Prelude.{ℕ, List, [], ◌∷◌, map, ◌⊎◌, inl, inr, if◌then◌else◌, ◌==◌}
use criproxy.Text.{Text, codes, text_eq}
use criproxy.Errors.{Error}
use criproxy.Proxy.World.{Version, cri19, cri112, Event, World, Slot}
use criproxy.Proxy.Client.{Env}
use criproxy.Proxy.Routing.{RuntimeProxy}
use criproxy.Proxy.Construction.{new_runtime_proxy}
use criproxy.Proxy.Server.{Running}

pub record Url : Type 0 where
  pub scheme : Text
  pub host : Text
  -- its other fields, encoded
  pub rest : Text

-- What the program asks of the packages net and url, and what a proxy with the streaming URL uses.
pub record Platform : Type 0 where
  -- knet.ChooseBindAddress
  pub bind_address : Text ⊎ Text
  -- net.JoinHostPort of an address and a number
  pub join_host_port : Text → ℕ → Text
  -- url.Parse
  pub parse_url : Text → Text ⊎ Url
  pub env_of : Url → Env

pub record Flags : Type 0 where
  pub connect : Text
  pub stream_port : ℕ
  pub stream_url : Text

pub data StartError : Type 0 where
  -- "can't get stream url: %v"
  no_stream_url : Text → StartError
  -- "invalid stream url %q: %v"
  invalid_stream_url : Text → Text → StartError
  -- "error initializing CRI proxy: %v"
  no_proxy : Error → StartError

-- strings.Split by a separator of one byte
unfoldable pub split : Text → ℕ → List Text
split [] sep = [] ∷ []
split (c ∷ s) sep = elim (split s sep) [
  | [] ↦ []
  | part ∷ parts ↦ if c == sep then [] ∷ part ∷ parts else (c ∷ part) ∷ parts
]

abbrev pub cri_versions : List Version
cri_versions = cri19 ∷ cri112 ∷ []

module _ (platform : Platform) where
  unfoldable pub get_stream_url : ℕ → Text ⊎ Url
  get_stream_url port = elim platform.bind_address [
    | inl e ↦ inl e
    | inr address ↦
        inr
          (record { scheme = codes "http"; host = platform.join_host_port address port; rest = [] })
  ]

  unfoldable pub real_stream_url : Flags → StartError ⊎ Url
  unfolding get_stream_url text_eq
  real_stream_url flags =
      if text_eq flags.stream_url []
      then elim (get_stream_url flags.stream_port) [ inl e ↦ inl (no_stream_url e) | inr u ↦ inr u ]
      else elim (platform.parse_url flags.stream_url) [
        | inl e ↦ inl (invalid_stream_url flags.stream_url e)
        | inr u ↦ inr u
      ]

module _ (platform : Platform) (happens : Version → List (List Event)) where
  -- A proxy of the server, and what will happen to its clients.
  abbrev pub interceptor_of : Url → RuntimeProxy → List Slot → Running
  interceptor_of u r slots = record {
    env = platform.env_of u;
    proxy = r;
    world = record { slots = slots; schedule = happens r.cri_version; log = [] };
  }

  -- The loop over criVersions.
  unfoldable pub new_interceptors : Url → List Text → List Version → StartError ⊎ List Running
  new_interceptors u addrs [] = inr []
  new_interceptors u addrs (v ∷ vs) =
      let rest = new_interceptors u addrs vs in
      elim (new_runtime_proxy v addrs) [
        | inl e ↦ inl (no_proxy e)
        | inr (r, slots) ↦ elim rest [
          | inl e ↦ inl e
          | inr ps ↦ inr (interceptor_of u r slots ∷ ps)
        ]
      ]

  -- The interceptors of the server that runCriProxy starts.
  unfoldable pub run_cri_proxy : Flags → StartError ⊎ List Running
  unfolding real_stream_url new_interceptors
  run_cri_proxy flags = elim (real_stream_url platform flags) [
    | inl e ↦ inl e
    | inr u ↦ new_interceptors u (split flags.connect b',') cri_versions
  ]
