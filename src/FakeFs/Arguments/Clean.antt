-- ===== src/FakeFs/Arguments/Clean.antt =====
-- What the argument loops of src/infra/fake_fs_data_handler.py let through.
use honey_mind.Prelude.{
  Text, Bool, true, false, Bool-cases, ◌&&◌, ◌||◌, List, [], ◌∷◌, ◌≡◌, arith, All, inl, inr,
}
use honey_mind.FakeFs.Arguments.{
  is_redirection_token, is_option, is_pager, is_lines_option, command_paths_from, command_paths,
}

-- a token that is neither a redirection nor an option
abbrev pub IsOperand : Text → Type 0
IsOperand t = (is_redirection_token t ≡ false) × (is_option t ≡ false)

command_paths_from-IsOperand :
    (skip : Bool) (command : Text) (tokens : List Text)
    → All IsOperand (command_paths_from skip command tokens)
unfolding command_paths_from
command_paths_from-IsOperand true command [] = tt
command_paths_from-IsOperand false command [] = tt
command_paths_from-IsOperand true command (t ∷ ts) = command_paths_from-IsOperand false command ts
command_paths_from-IsOperand false command (t ∷ ts) =
    elim (Bool-cases (is_redirection_token t || (is_pager command && is_lines_option t))) [
      | inl e ↦ rw (e, command_paths_from) (command_paths_from-IsOperand true command ts)
      | inr e ↦ elim (Bool-cases (is_option t)) [
        | inl o ↦
            rw (e, command_paths_from)
              (rw (o, command_paths_from) (command_paths_from-IsOperand false command ts))
        | inr o ↦
            rw (e, command_paths_from)
              (rw (o, command_paths_from)
                ((ground arith, o), command_paths_from-IsOperand false command ts))
      ]
    ]

-- No path of `cat`, `head`, `tail`, `stat` or `file` is an option or a redirection.
pub command_paths-IsOperand :
    (command : Text) (tokens : List Text) → All IsOperand (command_paths command tokens)
unfolding command_paths
command_paths-IsOperand command tokens = command_paths_from-IsOperand false command tokens
