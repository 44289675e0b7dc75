-- ===== src/Tests/ApiRuns.antt =====
-- The router over the in-memory store, with the world of the samples.

use go_shortvideo.Prelude.{◌≡◌, refl, true, false, [], arith}
use go_shortvideo.Prelude.Int.{pos}
use go_shortvideo.Strconv.{codes, parse_int}
use go_shortvideo.Store.State.{new, ok}
use go_shortvideo.Store.Calls.{run}
use go_shortvideo.Tests.Samples.{plain, calls}
use go_shortvideo.Tests.LimitRuns.{library}
use go_shortvideo.Auth.Context.{Stored}
use go_shortvideo.Auth.Token.{
  from_header, identify, gin_middleware, new_jwt_with_options, user_id_from_context,
}
use go_shortvideo.Like.Memory.{mem_services}
use go_shortvideo.Api.Service.{App, Handler, Request}
use go_shortvideo.Api.Answer.{fail}
use go_shortvideo.Api.Follows.{follow}
use go_shortvideo.Api.Router.{AuthRoute, Route, serve, serve_auth, prepare}
use go_shortvideo.Store.Follows.{follow as store_follow}
use go_shortvideo.Store.Calls.{step}
use go_shortvideo.Store.Users.{create_user, store_user}
use go_shortvideo.TextDict
use go_shortvideo.IdSet.{contains, add}
use go_shortvideo.Store.Videos.{create_video, make_video}
use go_shortvideo.Store.Likes.{like as store_like, like_video}
use go_shortvideo.Model.{Video}
use go_shortvideo.Api.Likes
use go_shortvideo.Api.Videos
use go_shortvideo.Api.Answer.{success, liking, item}
use go_shortvideo.Api.Liking.{get_video-like}
use go_shortvideo.Store.Comments.{add_comment, comment_on}
use go_shortvideo.Dict.{has_key, lookup, insert}
use go_shortvideo.Api.Answer.{store_err_status}
use go_shortvideo.Api.Serving.{store-serve, serve-unauthorized}

abbrev world : App mem_services
world = record { store = run plain calls new; ext = tt; jobs = [] }

abbrev settings : Handler
settings = record {
  jwt_secret = codes "s3cret";
  jwt_ttl = pos 3600;
  allow_x_user_id = true;
  fanout = false;
}

abbrev strict : Handler
strict = record settings { allow_x_user_id = false }

-- User 3 asks for record 9, which is not there.
abbrev request : Request
request = record {
  context = record {
    user_id = Stored.unset;
    allow_x_user_id = Stored.unset;
    authorization = [];
    x_user_id = codes "3";
    x_forwarded_for = [];
    client_ip = codes "10.0.0.1";
  };
  id = codes "9";
  max_id = [];
  limit = [];
  cursor = [];
}

serve-unauthorized_example :
    serve mem_services plain library strict 5 (Route.guarded AuthRoute.follow) request world
    ≡ (fail 401, world)
serve-unauthorized_example =
    serve-unauthorized mem_services plain library strict 5 AuthRoute.follow request world refl
      (λ token user e. absurd (ground arith))

turned_away :
    (serve mem_services plain library settings 5
      (Route.guarded AuthRoute.follow)
      request
      world).0.status
    ≡ 404
unfolding serve serve_auth prepare gin_middleware identify from_header new_jwt_with_options follow
    user_id_from_context parse_int store_follow run step new create_user store_user create_video
    make_video store_like like_video add_comment comment_on lookup insert contains add
    store_err_status TextDict.insert
turned_away = refl

no_zero : has_key 0 world.store.users ≡ false
unfolding run step new create_user store_user create_video make_video store_follow store_like
    like_video add_comment comment_on lookup insert contains add TextDict.insert
no_zero = refl

store-serve_example :
    (serve mem_services plain library settings 5
      (Route.guarded AuthRoute.follow)
      request
      world).1.store
    ≡ run plain calls new
store-serve_example =
    store-serve plain library settings 5 (Route.guarded AuthRoute.follow) request world no_zero
      (omega (arith, turned_away))

-- User 2 likes video 1, which user 3 has liked already.
abbrev liking_request : Request
liking_request = record request {
  context = record request.context { user_id = Stored.value (pos 2) };
  id = codes "1";
}

went : (store_like 2 1 world.store).0 ≡ ok true
unfolding store_follow run step new create_user store_user create_video make_video store_like
    like_video add_comment comment_on lookup insert contains add TextDict.insert
went = refl

get_video-like_example :
    let (answer, a') = Likes.like mem_services liking_request world in
    (v : Video) × ((answer ≡ success (liking true true v.like_count))
      × ((Videos.get_video mem_services liking_request a').0
          ≡ success (item (record { video = v; liked = true }))))
unfolding user_id_from_context parse_int
get_video-like_example =
    get_video-like plain calls liking_request 2 1 world true refl refl refl went
