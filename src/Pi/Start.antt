-- ===== src/Pi/Start.antt =====
-- The arguments and the skills overlay with which pi.go starts pi.
--
-- `dir` is the standard library's `filepath.Dir`.
use opencrow.Prelude.{Bool, List, [], ◌∷◌, ◌++◌, if◌then◌else◌}
use opencrow.Prelude.Text.{Text, codes, is_empty}
use opencrow.Conversation.{is_member}
use opencrow.Config.Types.{PiConfig}

-- A flag with its value, where the value is not empty.
abbrev pub flag_if : Text → Text → List Text
flag_if flag value = if is_empty value then [] else flag ∷ value ∷ []

unfoldable pub extension_args : List Text → List Text
extension_args [] = []
extension_args (e ∷ es) = codes "--extension" ∷ e ∷ extension_args es

unfoldable pub build_pi_args : PiConfig → Bool → Text → List Text
unfolding extension_args
build_pi_args cfg fresh skills_config_path =
    cfg.binary_args
    ++ (codes "--mode"
        ∷ codes "rpc"
        ∷ codes "--session-dir"
        ∷ cfg.session_dir
        ∷ ((if fresh then [] else codes "--continue" ∷ [])
            ++ (flag_if (codes "--provider") cfg.provider
                ++ (flag_if (codes "--model") cfg.model
                    ++ (flag_if (codes "--append-system-prompt") cfg.system_prompt
                        ++ (flag_if (codes "--config") skills_config_path
                            ++ extension_args cfg.extensions))))))

-- The parents of the skills, each once, in the order of the skills.
unfoldable pub custom_directories : (Text → Text) → List Text → List Text → List Text
unfolding is_member
custom_directories dir seen [] = []
custom_directories dir seen (skill ∷ skills) =
    let known = is_member (dir skill) seen in
    let rest = custom_directories dir (if known then seen else dir skill ∷ seen) skills in
    if known then rest else dir skill ∷ rest
