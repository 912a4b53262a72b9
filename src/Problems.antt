-- ===== src/Problems.antt =====
-- pkg/problems/problems.go: the URLs of problem types. The two environment variables are arguments,
-- empty where they are not set.
use lamdis_core.Prelude.{◌∷◌, ◌++◌, if◌then◌else◌, not, null}
use lamdis_core.Text.{Text, codes, trim_right_char}

unfoldable pub base : Text → Text → Text
unfolding trim_right_char
base problem_base_url base_public_url =
    if not (null problem_base_url)
    then trim_right_char b'/' problem_base_url
    else if not (null base_public_url)
    then trim_right_char b'/' base_public_url ++ codes "/problems"
    else codes "https://example.com/problems"

unfoldable pub problem_type : Text → Text → Text → Text
unfolding base
problem_type problem_base_url base_public_url slug =
    base problem_base_url base_public_url ++ b'/' ∷ slug
