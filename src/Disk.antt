-- ===== src/Disk.antt =====
-- What the program asks of `os`, `path/filepath`, `net/http` and `fmt` while it expands arguments and
-- completes paths: their answers, and the functions on paths.
use torrnado.Common.{Bool, List, Option}
use torrnado.Common.Text.{Text}
use torrnado.Engine.State.{Answer}

-- What follows the redirects of a link: the response, or what went wrong. A body is written to a new
-- temporary file, whose name is given, and the copy of it can fail.
pub data Response : Type 0 where
  failed : Text → Response
  status : Text → Response
  body : Answer Text → Option Text → Response

-- One redirect of a link: the address, and whether its scheme is that of a magnet.
pub record Hop : Type 0 where
  pub magnet : Bool
  pub url : Text

pub record Disk : Type 0 where
  -- whether a path that is there is a directory
  pub stat : Text → Option Bool
  -- the names in a directory, each with whether it is one
  pub read_dir : Text → Answer (List (Text × Bool))
  pub glob : Text → Answer (List Text)
  -- the lines of a file, and what stopped the reading of them
  pub lines : Text → Answer (List Text × Option Text)
  pub redirects : Text → List Hop
  pub response : Text → Response
  -- whether `os.Remove` of a file succeeds
  pub unlinks : Text → Bool
  -- `strings.EqualFold(filepath.Ext(path), ".torrent")`
  pub is_torrent : Text → Bool
  pub join_path : Text → Text → Text
  pub dir_of : Text → Text
  pub base_of : Text → Text
  pub quote : Text → Text
  -- `os.UserHomeDir`
  pub home : Answer Text
