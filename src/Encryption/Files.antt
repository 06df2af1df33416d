-- ===== src/Encryption/Files.antt =====
-- helper::read_binary_file (helper.h and helper.cpp).
use lnetlib.Base.{
  ℕ, ◌-◌, ◌^◌, List, [], ◌++◌, Option, none, some, length, take, drop, ltb, if◌then◌else◌,
}

-- A text, by its bytes.
abbrev pub Text : Type 0
Text = List ℕ

-- What opening a name for reading gives: nothing, or a stream whose end position is known or not
-- (`tellg` fails) and which delivers these bytes.
pub data FileView : Type 0 where
  absent : FileView
  present : Option ℕ → List ℕ → FileView

-- The files of the system, and what freshly allocated memory holds.
pub record Files : Type 0 where
  pub view : Text → FileView
  pub heap : List ℕ

-- `std::pair<std::unique_ptr<char>, uint64_t>`.
pub record File : Type 0 where
  pub content : List ℕ
  pub size : ℕ

-- `tellg` returns -1 on failure, which becomes the largest uint64_t.
abbrev pub position : Option ℕ → ℕ
position none = 2 ^ 64 - 1
position (some n) = n

-- The bytes that were read, over what the memory held.
abbrev pub filled : List ℕ → List ℕ → ℕ → List ℕ
filled heap content size = take size (take size content ++ drop (length (take size content)) heap)

-- `none`: the allocation throws, since no object has more than 2 ^ 63 - 1 bytes.
unfoldable pub read_view : List ℕ → FileView → Option File
read_view heap absent = some (record { content = []; size = 0 })
read_view heap (present end content) =
    let size = position end in
    if ltb size (2 ^ 63)
    then some (record { content = filled heap content size; size = size })
    else none

unfoldable pub read_binary_file : Files → Text → Option File
read_binary_file files name = read_view files.heap (files.view name)
