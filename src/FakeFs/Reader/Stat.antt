-- ===== src/FakeFs/Reader/Stat.antt =====
-- What reading commands of src/infra/fake_fs_data_handler.py do behind `mkdir`.
use honey_mind.Prelude.{
  ℕ, zero, suc, ◌<◌, ◌-◌, Text, codes, eqb, take, drop, length, List, [], ◌∷◌, ◌++◌, ◌≡◌, refl, ap,
  arith,
}
use honey_mind.FakeFs.Reader.{selected_lines}

-- what `stat` prints of a folder of size zero
abbrev pub stat_of_folder : Text → Text → Text
stat_of_folder path modified =
    codes "  File: "
    ++ (path
        ++ (codes
              "\n  Size: 0          Blocks: 8          IO Block: 4096   directory\nDevice: 802h/2050d    "
            ++ (codes "Inode: 1048577     Links: 1\nAccess: (drwxr-xr-x)  Uid: (    0/    root)   "
                ++ (codes "Gid: (    0/    root)\nModify: "
                    ++ ((modified ++ codes " +0000") ++ codes "\n")))))

take-drop : (n : ℕ) (xs : List Text) → take n xs ++ drop n xs ≡ xs
take-drop zero xs = refl
take-drop (suc n) [] = refl
take-drop (suc n) (x ∷ xs) = ap (λ t. x ∷ t) (take-drop n xs)

-- `head` and `tail` split a text between them: where `tail` is asked for a positive number of
-- lines, and `head` for all that `tail` leaves, their lines together are those of the text.
pub head-tail :
    (count : ℕ) (lines : List Text)
    → 0 < count
    → selected_lines (codes "head") (length lines - count) lines
        ++ selected_lines (codes "tail") count lines
      ≡ lines
unfolding selected_lines eqb
head-tail count lines positive = ground (arith, take-drop (length lines - count) lines)
