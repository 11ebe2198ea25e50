-- ===== src/Startup/Info.antt =====
-- SMPPServer/include/app_info.hpp and src/app_info.cpp, and the stub of smpp_service_manager.cpp.
use opensmsc.Base.{Bool, Text, [], arith, leb, not, true, ℕ, ◌++◌, ◌==◌, ◌∷◌, ◌≡◌, text}

-- The macros of config.h, which CMake writes.
pub record BuildConfig : Type 0 where
  pub project_name : Text
  pub version_string : Text
  pub full_version_string : Text
  pub version_major : ℕ
  pub version_minor : ℕ
  pub version_patch : ℕ
  pub project_description : Text
  pub project_homepage_url : Text
  pub compiler : Text
  pub cxx_standard : Text
  pub build_type : Text

unfoldable is_prerelease : BuildConfig → Bool
is_prerelease c = c.version_major == 0

unfoldable is_stable : BuildConfig → Bool
is_stable c = leb 1 c.version_major

unfoldable info_string : BuildConfig → Text
info_string c =
    c.project_name
    ++ text " "
    ++ c.full_version_string
    ++ (10 ∷ [])
    ++ text "Description: "
    ++ c.project_description
    ++ (10 ∷ [])
    ++ text "Homepage: "
    ++ c.project_homepage_url
    ++ (10 ∷ [])
    ++ text "Compiler: "
    ++ c.compiler
    ++ text " (C++"
    ++ c.cxx_standard
    ++ text ")"
    ++ (10 ∷ [])
    ++ text "Build Type: "
    ++ c.build_type

-- A version is either a pre-release or stable.
is_stable-is_prerelease : (c : BuildConfig) → is_stable c ≡ not (is_prerelease c)
unfolding is_stable is_prerelease
is_stable-is_prerelease c = ground arith

-- `SmppServiceManager` logs and answers true.
unfoldable start_authenticator : Text → Text → Bool
start_authenticator session_id client_ip = true

unfoldable stop_authenticator : Text → Bool
stop_authenticator session_id = true
