-- ===== src/Controllers/Names.antt =====
-- controllers/common.go: containsString, removeString, the environment and the finalizers' names;
-- getGatewayControllerName of controllers/gateway_controller.go.
use k8s_ssh_gateway_controll.Prelude.{
  ℕ, suc, ◌+◌, ◌≡◌, refl, ◌∙◌, Bool, true, false, Option, none, some, List, [], ◌∷◌, ◌++◌, arith,
  eqb, if◌then◌else◌,
}
use k8s_ssh_gateway_controll.Prelude.Eq.{◌==◌, eq_iff, eq_refl, int_eq, nat_eq}
use k8s_ssh_gateway_controll.Go.Text.{Text, text, text_eq, replace_byte}
use k8s_ssh_gateway_controll.Ssh.Flags.{kind_eq}

-- containsString
unfoldable pub contains_string : List Text → Text → Bool
contains_string [] s = false
contains_string (item ∷ items) s = if item == s then true else contains_string items s

-- removeString
unfoldable pub remove_string : List Text → Text → List Text
remove_string [] s = []
remove_string (item ∷ items) s =
    let rest = remove_string items s in if item == s then rest else item ∷ rest

-- What removeString leaves of any string: all of the others, and none of its own.
pub contains_string-remove_string :
    (items : List Text) (s t : Text)
    → contains_string (remove_string items s) t
      ≡ (if s == t then false else contains_string items t)
unfolding contains_string remove_string
contains_string-remove_string [] s t = ground arith
contains_string-remove_string (item ∷ items) s t =
    ground
      (arith, contains_string-remove_string items s t, eq_iff item s, eq_iff item t, eq_iff s t)

pub contains_string-append :
    (items : List Text) (s : Text) → contains_string (items ++ s ∷ []) s ≡ true
unfolding contains_string
contains_string-append [] s = ground (arith, eq_refl s)
contains_string-append (item ∷ items) s = ground (arith, contains_string-append items s)

-- The environment, as os.LookupEnv reads it.
abbrev pub Environment : Type 0
Environment = Text → Option Text

abbrev pub default_to_text : Text → Option Text → Text
default_to_text fallback none = fallback
default_to_text fallback (some value) = value

-- getEnvOrDefault
unfoldable pub get_env_or_default : Environment → Text → Text → Text
get_env_or_default env key default_value = default_to_text default_value (env key)

abbrev parsed_or : {D : Type 0} → (Text → Option D) → D → Option Text → D
parsed_or parse_duration default_value none = default_value
parsed_or parse_duration default_value (some value) = elim (parse_duration value) [
  | none ↦ default_value
  | some parsed ↦ parsed
]

-- getEnvDurationOrDefault; `parse_duration` is time.ParseDuration, `none` for its error.
unfoldable pub get_env_duration_or_default :
    {D : Type 0} → (Text → Option D) → Environment → Text → D → D
get_env_duration_or_default parse_duration env key default_value =
    parsed_or parse_duration default_value (env key)

-- getGatewayControllerName; os.Getenv gives the empty text for a variable that is not set.
unfoldable pub get_gateway_controller_name : Environment → Text
get_gateway_controller_name env =
    let controller_name = default_to_text [] (env (text "GATEWAY_CONTROLLER_NAME")) in
    if controller_name == [] then text "tunnels.ssh.gateway-api-controller" else controller_name

-- controllerNameSuffix
unfoldable pub controller_name_suffix : Environment → Text
unfolding get_gateway_controller_name
controller_name_suffix env = replace_byte b'/' b'-' (get_gateway_controller_name env)

-- getHTTPRouteFinalizer
unfoldable pub get_http_route_finalizer : Environment → Text
get_http_route_finalizer env =
    text "httproute.gateway.networking.k8s.io/finalizer-" ++ controller_name_suffix env

-- getTCPRouteFinalizer
unfoldable pub get_tcp_route_finalizer : Environment → Text
get_tcp_route_finalizer env =
    text "tcproute.gateway.networking.k8s.io/finalizer-" ++ controller_name_suffix env

-- getTLSRouteFinalizer
unfoldable pub get_tls_route_finalizer : Environment → Text
get_tls_route_finalizer env =
    text "tlsroute.gateway.networking.k8s.io/finalizer-" ++ controller_name_suffix env

-- getGatewayFinalizer
unfoldable pub get_gateway_finalizer : Environment → Text
get_gateway_finalizer env =
    text "gateway.networking.k8s.io/finalizer-" ++ controller_name_suffix env

-- How often a byte occurs.
unfoldable pub count_byte : ℕ → Text → ℕ
count_byte c [] = 0
count_byte c (x ∷ s) = let rest = count_byte c s in if eqb x c then suc rest else rest

count_byte-append : (c : ℕ) (s t : Text) → count_byte c (s ++ t) ≡ count_byte c s + count_byte c t
unfolding count_byte
count_byte-append c [] t = omega arith
count_byte-append c (x ∷ s) t = ground (arith, count_byte-append c s t)

count_byte-replaced : (s : Text) → count_byte b'/' (replace_byte b'/' b'-' s) ≡ 0
unfolding count_byte replace_byte
count_byte-replaced [] = refl
count_byte-replaced (x ∷ s) = ground (arith, count_byte-replaced s)

-- A qualified name of Kubernetes has one slash, between its prefix and its name.
abbrev pub IsQualified : Text → Type 0
IsQualified s = count_byte b'/' s ≡ 1

prefixed-IsQualified :
    (env : Environment) (prefix : Text)
    → count_byte b'/' prefix ≡ 1
    → IsQualified (prefix ++ controller_name_suffix env)
unfolding controller_name_suffix
prefixed-IsQualified env prefix one =
    count_byte-append b'/' prefix (controller_name_suffix env)
    ∙ omega (arith, one, count_byte-replaced (get_gateway_controller_name env))

-- Each of the four finalizers has exactly one slash, whatever name the environment gives the
-- controller.
pub finalizers-IsQualified :
    (env : Environment)
    → IsQualified (get_http_route_finalizer env)
      × IsQualified (get_tcp_route_finalizer env)
      × IsQualified (get_tls_route_finalizer env)
      × IsQualified (get_gateway_finalizer env)
unfolding count_byte get_http_route_finalizer get_tcp_route_finalizer get_tls_route_finalizer
    get_gateway_finalizer
finalizers-IsQualified env = (
  prefixed-IsQualified env (text "httproute.gateway.networking.k8s.io/finalizer-") refl,
  prefixed-IsQualified env (text "tcproute.gateway.networking.k8s.io/finalizer-") refl,
  prefixed-IsQualified env (text "tlsroute.gateway.networking.k8s.io/finalizer-") refl,
  prefixed-IsQualified env (text "gateway.networking.k8s.io/finalizer-") refl,
)
