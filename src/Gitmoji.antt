-- ===== src/Gitmoji.antt =====
-- vcs/commit_msg.py and publish/release_notes.py: the emoji that may lead a subject, by their code
-- points, and the sections of a release that they stand for.
use celestia_devtools.Prelude.{String, List, [], ◌∷◌, Text}

-- The order of the set in vcs/commit_msg.py is the order of its literal here.
abbrev pub gitmoji_whitelist : List Text
gitmoji_whitelist =
    (0x1f3a8 ∷ [])
    ∷ (0x26a1 ∷ 0xfe0f ∷ [])
    ∷ (0x26a1 ∷ [])
    ∷ (0x1f525 ∷ [])
    ∷ (0x1f41b ∷ [])
    ∷ (0x1f691 ∷ [])
    ∷ (0x2728 ∷ [])
    ∷ (0x1f4dd ∷ [])
    ∷ (0x1f680 ∷ [])
    ∷ (0x1f484 ∷ [])
    ∷ (0x1f389 ∷ [])
    ∷ (0x2705 ∷ [])
    ∷ (0x1f512 ∷ [])
    ∷ (0x1f516 ∷ [])
    ∷ (0x1f517 ∷ [])
    ∷ (0x1f6a8 ∷ [])
    ∷ (0x1f6a7 ∷ [])
    ∷ (0x1f49a ∷ [])
    ∷ (0x2b07 ∷ 0xfe0f ∷ [])
    ∷ (0x2b06 ∷ 0xfe0f ∷ [])
    ∷ (0x1f4cc ∷ [])
    ∷ (0x1f477 ∷ [])
    ∷ (0x1f4c8 ∷ [])
    ∷ (0x267b ∷ 0xfe0f ∷ [])
    ∷ (0x2795 ∷ [])
    ∷ (0x2796 ∷ [])
    ∷ (0x1f527 ∷ [])
    ∷ (0x1f528 ∷ [])
    ∷ (0x1f310 ∷ [])
    ∷ (0x270f ∷ 0xfe0f ∷ [])
    ∷ (0x1f4a9 ∷ [])
    ∷ (0x23ea ∷ [])
    ∷ (0x1f500 ∷ [])
    ∷ (0x1f504 ∷ [])
    ∷ (0x1f4e6 ∷ [])
    ∷ (0x1f47d ∷ [])
    ∷ (0x1f69a ∷ [])
    ∷ (0x1f4c4 ∷ [])
    ∷ (0x1f4a5 ∷ [])
    ∷ (0x1f371 ∷ [])
    ∷ (0x267f ∷ 0xfe0f ∷ [])
    ∷ (0x1f4a1 ∷ [])
    ∷ (0x1f37b ∷ [])
    ∷ (0x1f4ac ∷ [])
    ∷ (0x1f5c3 ∷ 0xfe0f ∷ [])
    ∷ (0x1f50a ∷ [])
    ∷ (0x1f507 ∷ [])
    ∷ (0x1f465 ∷ [])
    ∷ (0x1f6b8 ∷ [])
    ∷ (0x1f3d7 ∷ 0xfe0f ∷ [])
    ∷ (0x1f4f1 ∷ [])
    ∷ (0x1f921 ∷ [])
    ∷ (0x1f95a ∷ [])
    ∷ (0x1f648 ∷ [])
    ∷ (0x1f4f8 ∷ [])
    ∷ (0x2697 ∷ 0xfe0f ∷ [])
    ∷ (0x1f50d ∷ [])
    ∷ (0x1f3f7 ∷ 0xfe0f ∷ [])
    ∷ (0x1f331 ∷ [])
    ∷ (0x1f6a9 ∷ [])
    ∷ (0x1f945 ∷ [])
    ∷ (0x1f4ab ∷ [])
    ∷ (0x1f5d1 ∷ 0xfe0f ∷ [])
    ∷ (0x1f6c2 ∷ [])
    ∷ (0x1fa79 ∷ [])
    ∷ (0x1f9d0 ∷ [])
    ∷ (0x26b0 ∷ 0xfe0f ∷ [])
    ∷ (0x1f9ea ∷ [])
    ∷ (0x1f454 ∷ [])
    ∷ (0x1fa7a ∷ [])
    ∷ (0x1f9f1 ∷ [])
    ∷ (0x1f9d1 ∷ 0x200d ∷ 0x1f4bb ∷ [])
    ∷ (0x1f4b8 ∷ [])
    ∷ (0x1f9f5 ∷ [])
    ∷ (0x1f9ba ∷ [])
    ∷ (0x1f4dc ∷ [])
    ∷ (0x1f6e1 ∷ 0xfe0f ∷ [])
    ∷ (0x23f3 ∷ [])
    ∷ []

-- _SECTIONS
abbrev pub sections_table : List (String × List Text)
sections_table =
    ("✨ Features", (0x2728 ∷ []) ∷ (0x1f389 ∷ []) ∷ [])
    ∷ (
      "🐛 Fixes",
      (0x1f41b ∷ []) ∷ (0x1f691 ∷ []) ∷ (0x1fa79 ∷ []) ∷ (0x270f ∷ []) ∷ (0x1f49a ∷ []) ∷ [],
    )
    ∷ ("⚡ Performance", (0x26a1 ∷ []) ∷ (0x1f4c8 ∷ []) ∷ [])
    ∷ (
      "♻\u{fe0f} Refactoring",
      (0x267b ∷ []) ∷ (0x1f3a8 ∷ []) ∷ (0x1f3d7 ∷ []) ∷ (0x1f69a ∷ []) ∷ [],
    )
    ∷ (
      "💄 UI",
      (0x1f484 ∷ []) ∷ (0x1f4f1 ∷ []) ∷ (0x267f ∷ []) ∷ (0x1f4ab ∷ []) ∷ (0x1f6b8 ∷ []) ∷ [],
    )
    ∷ ("🌐 Localization", (0x1f310 ∷ []) ∷ [])
    ∷ ("📝 Documentation", (0x1f4dd ∷ []) ∷ (0x1f4a1 ∷ []) ∷ (0x1f4ac ∷ []) ∷ [])
    ∷ ("✅ Tests", (0x2705 ∷ []) ∷ (0x1f9ea ∷ []) ∷ [])
    ∷ (
      "⬆\u{fe0f} Dependencies",
      (0x2b06 ∷ []) ∷ (0x2b07 ∷ []) ∷ (0x1f4cc ∷ []) ∷ (0x2795 ∷ []) ∷ (0x2796 ∷ []) ∷ [],
    )
    ∷ ("🔒 Security", (0x1f512 ∷ []) ∷ (0x1f6e1 ∷ []) ∷ (0x1f6c2 ∷ []) ∷ [])
    ∷ ("🔥 Removals", (0x1f525 ∷ []) ∷ (0x1f5d1 ∷ []) ∷ (0x26b0 ∷ []) ∷ [])
    ∷ (
      "🔧 Maintenance",
      (0x1f527 ∷ [])
          ∷ (0x1f528 ∷ [])
          ∷ (0x1f477 ∷ [])
          ∷ (0x1f4e6 ∷ [])
          ∷ (0x1f680 ∷ [])
          ∷ (0x1f371 ∷ [])
          ∷ (0x1f5c3 ∷ [])
          ∷ (0x1f9f1 ∷ [])
          ∷ (0x1f9ba ∷ [])
          ∷ (0x1fa7a ∷ [])
          ∷ (0x1f6a8 ∷ [])
          ∷ (0x1f331 ∷ [])
          ∷ (0x1f4f8 ∷ [])
          ∷ (0x1f516 ∷ [])
          ∷ (0x1f9d1 ∷ 0x200d ∷ 0x1f4bb ∷ [])
          ∷ [],
    )
    ∷ ("📜 License", (0x1f4dc ∷ []) ∷ (0x1f4c4 ∷ []) ∷ [])
    ∷ ("🔄 Sync", (0x1f517 ∷ []) ∷ (0x1f504 ∷ []) ∷ [])
    ∷ []

abbrev pub other_heading : String
other_heading = "Other Changes"

abbrev pub dependabot_heading : String
dependabot_heading = "⬆\u{fe0f} Dependencies"
